-- ===== src/Http/RequestLine.antt =====
-- wruster/src/http/mod.rs: `HttpRequestLine`.
pub mod RoundTrip
use wruster.Base.{
  ℕ, ◌-◌, Bool, false, Option, none, some, List, [], ◌∷◌, ◌++◌, Bytes, ◌==◌, ltb, if◌then◌else◌,
  length, take, get_elem?, codes, equal,
}
use wruster.Base.Decimal.{decimal}
use wruster.Base.Utf8.{from_utf8_lossy}
use wruster.Http.Error.{
  HttpError, connection_closed, unknown, invalid_request, IoError, of_io, ok, err, ◌>>=◌, map_err,
  HttpResult,
}
use wruster.Http.Io.{Input, read_until, Output, write as write_to}
use wruster.Http.Method
use wruster.Http.Method.{HttpMethod}

pub record HttpRequestLine : Type 0 where
  pub method : HttpMethod
  pub uri : Bytes
  pub version : Bytes

-- A vector of bytes, in the format `{:?}`.
unfoldable pub debug_items : Bytes → Bytes
debug_items [] = []
debug_items (c ∷ cs) = codes ", " ++ (decimal c ++ debug_items cs)

unfoldable pub debug_bytes : Bytes → Bytes
debug_bytes [] = codes "[]"
debug_bytes (c ∷ cs) = b'[' ∷ (decimal c ++ (debug_items cs ++ codes "]"))

abbrev pub invalid_request_line : HttpError
invalid_request_line = invalid_request (codes "invalid request line")

-- &bytes[..bytes.len() - n]
abbrev pub without_last : ℕ → Bytes → Bytes
without_last n s = take (length s - n) s

-- An error of a read that is not converted by `HttpError::from`.
abbrev pub unknown_io : IoError → HttpError
unknown_io e = unknown e.message

unfoldable pub parse_method : Bytes → HttpResult HttpMethod
parse_method method =
    if length method == 0
    then err connection_closed
    else if ltb (length method) 2
    then err (invalid_request (codes "invalid request line " ++ debug_bytes method))
    else elim (Method.from_str (from_utf8_lossy (without_last 1 method))) [
      | none ↦ err (invalid_request (codes "invalid http method"))
      | some m ↦ ok m
    ]

unfoldable pub parse_uri : Bytes → HttpResult Bytes
parse_uri uri =
    if ltb (length uri) 2
    then err invalid_request_line
    else ok (from_utf8_lossy (without_last 1 uri))

-- version[version.len() - 2] != b'\r'
unfoldable pub second_last_is_cr : Bytes → Bool
second_last_is_cr s = elim (get_elem? s (length s - 2)) [ none ↦ false | some c ↦ c == b'\r' ]

unfoldable pub parse_version : Bytes → HttpResult Bytes
parse_version version =
    if ltb (length version) 3
    then err invalid_request_line
    else if second_last_is_cr version
    then ok (from_utf8_lossy (without_last 2 version))
    else err invalid_request_line

-- `HttpRequestLine::read_from`
unfoldable pub read_from : Input → HttpResult (HttpRequestLine × Input)
read_from from = map_err of_io (read_until b' ' from) >>= λ (method, from1).
    parse_method method >>= λ m. map_err unknown_io (read_until b' ' from1) >>= λ (uri, from2).
    parse_uri uri >>= λ u. map_err of_io (read_until b'\n' from2) >>= λ (version, from3).
    parse_version version >>= λ v. ok (record { method = m; uri = u; version = v }, from3)

-- The line that `HttpRequestLine::write` formats.
unfoldable pub line_of : HttpRequestLine → Bytes
line_of l =
    Method.to_string l.method ++ (b' ' ∷ (l.uri ++ (b' ' ∷ (l.version ++ (b'\r' ∷ b'\n' ∷ [])))))

-- `HttpRequestLine::write`: one call of the writer, which may take a part of the line.
unfoldable pub write : HttpRequestLine → Output → HttpResult Output
unfolding line_of
write l to = map_err of_io (write_to to (line_of l))

-- ===== src/Http/ResponseLine.antt =====
-- wruster/src/http/mod.rs: `HttpResponseLine`.
pub mod RoundTrip
use wruster.Base.{
  ℕ, ◌-◌, Bool, List, [], ◌∷◌, ◌++◌, Bytes, ◌==◌, ltb, if◌then◌else◌, length, codes, equal,
}
use wruster.Base.Decimal
use wruster.Base.Decimal.{ParseInt, parse_error, parse_unsigned, parse_usize}
use wruster.Base.Utf8.{from_utf8_lossy, trim_end}
use wruster.Http.Error.{
  HttpError, connection_closed, timeout, unknown, IoError, timed_out, ok, err, ◌>>=◌, map_err,
  HttpResult,
}
use wruster.Http.Io.{Input, read_until, Output, write as write_to}
use wruster.Http.RequestLine.{without_last, unknown_io}
use wruster.Http.Status
use wruster.Http.Status.{StatusCode, from_usize}

pub record HttpResponseLine : Type 0 where
  pub http_version : Bytes
  pub status_code : StatusCode
  pub reason_phrase : Bytes

abbrev pub push_front : ℕ → List Bytes → List Bytes
push_front c [] = (c ∷ []) ∷ []
push_front c (s ∷ ss) = (c ∷ s) ∷ ss

-- `str::split` at one character
unfoldable pub split_at : ℕ → Bytes → List Bytes
split_at delim [] = [] ∷ []
split_at delim (c ∷ cs) =
    let parts = split_at delim cs in if c == delim then [] ∷ parts else push_front c parts

abbrev pub invalid_version : Bytes → HttpError
invalid_version version = unknown (codes "invalid http version: " ++ version)

-- The outcome of `parse::<u8>` on a part of the version.
unfoldable pub validate_number : Bytes → ParseInt → HttpResult (Unit {0})
validate_number version (ParseInt.value n) = ok tt
validate_number version e = err (invalid_version (version ++ (b' ' ∷ parse_error e)))

unfoldable pub validate_digits : Bytes → List Bytes → HttpResult (Unit {0})
validate_digits version (major ∷ minor ∷ []) =
    validate_number version (parse_unsigned 256 major) >>= λ _.
    validate_number version (parse_unsigned 256 minor)
validate_digits version _ = err (invalid_version version)

unfoldable pub validate_parts : Bytes → List Bytes → HttpResult (Unit {0})
validate_parts version (name ∷ digits ∷ []) =
    if equal name (codes "HTTP")
    then validate_digits version (split_at b'.' digits)
    else err (invalid_version version)
validate_parts version _ = err (invalid_version version)

-- `HttpResponseLine::validate_version`
unfoldable pub validate_version : Bytes → HttpResult (Unit {0})
validate_version version = validate_parts version (split_at b'/' version)

abbrev pub of_version_error : IoError → HttpError
of_version_error e = elim e.kind [ timed_out ↦ timeout | _ ↦ unknown e.message ]

unfoldable pub parse_version : Bytes → HttpResult Bytes
parse_version [] = err connection_closed
parse_version (c ∷ cs) =
    let version = trim_end (from_utf8_lossy (c ∷ cs)) in
    validate_version version >>= λ _. ok version

unfoldable pub parsed_code : ParseInt → HttpResult StatusCode
parsed_code (ParseInt.value n) = ok (from_usize n)
parsed_code e = err (unknown (parse_error e))

unfoldable pub parse_code : Bytes → HttpResult StatusCode
parse_code bytes =
    let code = from_utf8_lossy bytes in
    if length code == 4
    then parsed_code (parse_usize (trim_end code))
    else err (unknown (codes "invalid status code: " ++ code))

unfoldable pub parse_reason : Bytes → HttpResult Bytes
parse_reason reason =
    if ltb (length reason) 3
    then err (unknown (codes "invalid reason phrase"))
    else ok (from_utf8_lossy (without_last 2 reason))

-- `HttpResponseLine::read_from`
unfoldable pub read_from : Input → HttpResult (HttpResponseLine × Input)
read_from from = map_err of_version_error (read_until b' ' from) >>= λ (version, from1).
    parse_version version >>= λ v. map_err unknown_io (read_until b' ' from1) >>= λ (code, from2).
    parse_code code >>= λ c. map_err unknown_io (read_until b'\n' from2) >>= λ (reason, from3).
    parse_reason reason >>= λ r.
    ok (record { http_version = v; status_code = c; reason_phrase = r }, from3)

-- The line that `HttpResponseLine::write` formats.
unfoldable pub line_of : HttpResponseLine → Bytes
line_of l = l.http_version ++ (b' ' ∷ (Status.to_string l.status_code ++ (b'\r' ∷ b'\n' ∷ [])))

-- `HttpResponseLine::write`: one call of the writer, which may take a part of the line.
unfoldable pub write : HttpResponseLine → Output → HttpResult Output
write l to = map_err unknown_io (write_to to (line_of l))

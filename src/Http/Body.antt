-- ===== src/Http/Body.antt =====
-- wruster/src/http/mod.rs: `Body`. The crate `mime` is a parameter: a type of media types, how one is
-- parsed and how it is printed. A reader of content is an `Input`.
pub mod Framing
use wruster.Base.{
  ℕ, ◌+◌, ◌*◌, ◌^◌, ◌-◌, ◌≡◌, Bool, Option, none, some, List, [], ◌∷◌, ◌++◌, Bytes, ◌==◌, ltb, leb,
  if◌then◌else◌, length, take, drop, equal, codes,
}
use wruster.Base.Decimal
use wruster.Base.Decimal.{ParseInt, parse_usize, parse_error}
use wruster.Http.Error.{
  HttpError, unknown, IoError, of_io, Result, ok, err, panic, ◌>>=◌, map_err, HttpResult,
}
use wruster.Http.Header.{of_write_error}
use wruster.Http.Headers
use wruster.Http.Headers.{Headers}
use wruster.Http.Io.{Input, IoResult, Output, write_all}

-- The crate `mime`, as far as the messages use it.
pub record Mime : Type 1 where
  pub Media : Type 0
  pub parse : Bytes → Option Media
  pub parse_failure : Bytes → Bytes
  pub print : Media → Bytes
  pub text_plain : Media
  pub parse-print : (m : Media) → parse (print m) ≡ some m

-- A copy through a `BufWriter` that is dropped behind it. A writer that takes everything is given all
-- of it.
pub record BufWriter : Type 0 where
  pub copy : Output → Bytes → IoResult Output
  pub copy-reliable :
      (written buf : Bytes)
      → copy (record { written = written; calls = [] }) buf
        ≡ ok (record { written = written ++ buf; calls = [] })

pub record Body (Media : Type 0) : Type 0 where
  pub content_type : Option Media
  pub content_length : ℕ
  pub content : Input
  pub bytes_read : ℕ

-- `Read::take`: at most `n` bytes, and then the end, without asking the reader again.
unfoldable pub take_input : ℕ → Input → Input
take_input n from = record {
  unread = take n from.unread;
  ending = if leb n (length from.unread) then none else from.ending;
}

abbrev pub transfer_encoding : Bytes
transfer_encoding = codes "Transfer-Encoding"

abbrev pub content_length_name : Bytes
content_length_name = codes "Content-Length"

abbrev pub content_type_name : Bytes
content_type_name = codes "Content-Type"

-- The transfer encoding has to be "identity", given once, or absent.
unfoldable pub check_encoding : Option (List Bytes) → HttpResult (Unit {0})
check_encoding none = ok tt
check_encoding (some (encoding ∷ [])) =
    if equal encoding (codes "identity")
    then ok tt
    else err (unknown (codes "Transfer-Encoding: " ++ (encoding ++ codes " is not supported")))
check_encoding (some _) = err (unknown (codes "invalid Transfer-Encoding header"))

unfoldable pub parsed_length : ParseInt → HttpResult (Option ℕ)
parsed_length (ParseInt.value n) = ok (some n)
parsed_length e = err (unknown (codes "invalid Content-Length header, " ++ parse_error e))

-- The one value of the length, if the header is there.
unfoldable pub declared_length : Option (List Bytes) → HttpResult (Option ℕ)
declared_length none = ok none
declared_length (some (len ∷ [])) = parsed_length (parse_usize len)
declared_length (some _) = err (unknown (codes "invalid Content-Length header"))

-- A list of strings, in the format `{:?}`, for strings that have nothing to escape.
unfoldable pub debug_strings : List Bytes → Bytes
debug_strings [] = []
debug_strings (s ∷ []) = b'"' ∷ (s ++ codes "\"")
debug_strings (s ∷ t ∷ ss) = b'"' ∷ (s ++ (codes "\", " ++ debug_strings (t ∷ ss)))

module _ (mime : Mime) where
  open mime use {Media, parse, parse_failure, print, text_plain}

  unfoldable pub declared_type : Option (List Bytes) → HttpResult (Option Media)
  declared_type none = ok none
  declared_type (some []) = err (unknown (codes "invalid Content-Type header, []"))
  declared_type (some (t ∷ ts)) = elim (parse t) [
    | none ↦ err (
        unknown (
          codes "invalid Content-Type header, ["
          ++ (debug_strings (t ∷ ts) ++ (codes "], " ++ parse_failure t))))
    | some m ↦ ok (some m)
  ]

  unfoldable pub new : Option Media → ℕ → Input → Body Media
  new content_type content_length content = record {
    content_type = content_type;
    content_length = content_length;
    content = content;
    bytes_read = 0;
  }

  -- `IntoBody` for strings, which `Body::from` calls.
  unfoldable pub from : Bytes → Media → Body Media
  from content mime_type =
      new (some mime_type) (length content) (record { unread = content; ending = none })

  -- `From<&str> for Body`
  unfoldable pub from_str : Bytes → Body Media
  from_str content = from content text_plain

  unfoldable pub read_sized : ℕ → Input → Headers → HttpResult (Option (Body Media))
  read_sized len from headers =
      if len == 0
      then ok none
      else declared_type (Headers.get headers content_type_name) >>= λ content_type.
          ok (some (new content_type len (take_input len from)))

  unfoldable pub read_declared : Option ℕ → Input → Headers → HttpResult (Option (Body Media))
  read_declared none from headers = ok none
  read_declared (some len) from headers = read_sized len from headers

  -- `Body::read_from`
  unfoldable pub read_from : Input → Headers → HttpResult (Option (Body Media))
  read_from from headers = do
    _ ← check_encoding (Headers.get headers transfer_encoding)
    len ← declared_length (Headers.get headers content_length_name)
    read_declared len from headers

  abbrev pub at_end : Option IoError → Output → HttpResult Output
  at_end none to = ok to
  at_end (some e) to = err (unknown e.message)

  -- `Body::write`: `io::copy` of the whole content, through a buffer if it is longer than 2 MB.
  unfoldable pub write : BufWriter → Body Media → Output → HttpResult Output
  write buffered body to =
      let copied =
        if ltb (2 ^ 20 * 2) body.content_length
        then buffered.copy to body.content.unread
        else write_all to body.content.unread in
      map_err of_write_error copied >>= at_end body.content.ending

  -- What `ensure_read` leaves of the content after copying at most `n` bytes of it away.
  unfoldable pub drain : ℕ → Body Media → HttpResult (Body Media)
  drain n body =
      let left = record body {
        content = record { unread = drop n body.content.unread; ending = body.content.ending };
      } in
      if leb n (length body.content.unread)
      then ok left
      else elim body.content.ending [ none ↦ ok left | some e ↦ err (of_io e) ]

  -- `Body::ensure_read`; more bytes read than declared is an overflow of the subtraction.
  unfoldable pub ensure_read : Body Media → HttpResult (Body Media)
  ensure_read body =
      if body.bytes_read == body.content_length
      then ok body
      else if ltb body.content_length body.bytes_read
      then panic
      else drain (body.content_length - body.bytes_read) body

  -- `Read for Body`, where the content delivers at most `n` bytes.
  unfoldable pub read : ℕ → Body Media → IoResult (Bytes × Body Media)
  read n body = elim body.content.unread [
    | [] ↦ elim body.content.ending [ none ↦ ok ([], body) | some e ↦ err e ]
    | c ∷ cs ↦ ok (
      take n (c ∷ cs),
      record body {
        content = record { unread = drop n (c ∷ cs); ending = body.content.ending };
        bytes_read = body.bytes_read + length (take n (c ∷ cs));
      },
    )
  ]

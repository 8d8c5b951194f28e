-- ===== src/Http/Request.antt =====
-- wruster/src/http/mod.rs: `Request`.
pub mod RoundTrip
pub mod Terminates
pub mod Undeclared
use wruster.Base.{
  ℕ, Bool, true, false, ◌&&◌, ◌||◌, Option, none, some, List, [], ◌∷◌, ◌++◌, Bytes, ◌==◌,
  if◌then◌else◌, equal, codes,
}
use wruster.Base.Decimal.{decimal}
use wruster.Base.Utf8.{to_lowercase}
use wruster.Http.Body
use wruster.Http.Body.{Mime, BufWriter, Body, content_length_name, content_type_name}
use wruster.Http.Error.{HttpResult, ok, ◌>>=◌}
use wruster.Http.Header.{Header}
use wruster.Http.Headers
use wruster.Http.Headers.{Headers}
use wruster.Http.Io.{Input, Output}
use wruster.Http.Method.{HttpMethod}
use wruster.Http.RequestLine
use wruster.Http.RequestLine.{HttpRequestLine}
use wruster.Http.Version
use wruster.Http.Version.{http1_1}

pub record Request (Media : Type 0) : Type 0 where
  pub method : HttpMethod
  pub uri : Bytes
  pub version : Bytes
  pub headers : Headers
  pub body : Option (Body Media)

abbrev pub content_length_header : Bytes → Header
content_length_header value = record { name = content_length_name; value = value }

-- A message without a body says so.
unfoldable pub announced : {Media : Type 0} → Option (Body Media) → Headers → Headers
announced none headers = Headers.add headers (content_length_header (codes "0"))
announced (some body) headers = headers

-- The first value of the header "Connection", in small letters, or nothing. `values[0]` is in range,
-- since every name has a value.
unfoldable pub connection_value : Headers → Bytes
connection_value headers = elim (Headers.get headers (codes "Connection")) [
  | none ↦ []
  | some values ↦ elim values [ [] ↦ [] | v ∷ vs ↦ to_lowercase v ]
]

-- `Request::is_connection_persistent`, and the function of that name in wruster/src/lib.rs.
unfoldable pub is_connection_persistent : {Media : Type 0} → Request Media → Bool
is_connection_persistent request =
    let value = connection_value request.headers in
    if equal value (codes "close")
    then false
    else if equal request.version (codes "HTTP/1.1") || equal request.version (codes "HTTP/2")
    then true
    else equal request.version (codes "HTTP/1.0") && equal value (codes "keep-alive")

module _ (mime : Mime) where
  open mime use {Media, print}

  -- `Request::read_from`; the fuels are those of the loops that read the headers.
  unfoldable pub read_from : ℕ → ℕ → Input → HttpResult (Request Media)
  read_from lines fuel from = RequestLine.read_from from >>= λ (line, from1).
      Headers.read_from lines fuel from1 >>= λ (headers, from2).
      Body.read_from mime from2 headers >>= λ body. ok (record {
        method = line.method;
        uri = line.uri;
        version = line.version;
        headers = headers;
        body = body;
      })

  unfoldable pub write_body : BufWriter → Option (Body Media) → Output → HttpResult Output
  write_body buffered none to = ok to
  write_body buffered (some body) to = Body.write mime buffered body to

  abbrev pub line_of : Request Media → HttpRequestLine
  line_of r = record { method = r.method; uri = r.uri; version = r.version }

  -- `Request::write`
  unfoldable pub write : BufWriter → Request Media → Output → HttpResult Output
  write buffered r to = do
    to ← RequestLine.write (line_of r) to
    to ← Headers.write (announced r.body r.headers) to
    write_body buffered r.body to

  unfoldable pub type_header : Option Media → Headers → Headers
  type_header none headers = headers
  type_header (some m) headers =
      Headers.add headers (record { name = content_type_name; value = print m })

  unfoldable pub length_header : ℕ → Headers → Headers
  length_header n headers =
      if n == 0 then headers else Headers.add headers (content_length_header (decimal n))

  -- `Request::from_body`
  unfoldable pub from_body : Body Media → HttpMethod → Bytes → Request Media
  from_body body method path = record {
    method = method;
    uri = path;
    version = Version.to_string http1_1;
    headers = length_header body.content_length (type_header body.content_type Headers.new);
    body = some body;
  }

  -- `Request::from`, by `IntoRequest` of what is made into a body.
  unfoldable pub from : Bytes → Media → HttpMethod → Bytes → Request Media
  from content mime_type method url = record {
    method = method;
    uri = url;
    version = Version.to_string http1_1;
    headers = Headers.new;
    body = some (Body.from mime content mime_type);
  }

  -- `Request::read_from_str`
  unfoldable pub read_from_str : ℕ → ℕ → Bytes → HttpResult (Request Media)
  read_from_str lines fuel text = read_from lines fuel (record { unread = text; ending = none })

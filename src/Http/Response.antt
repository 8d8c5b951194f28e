-- ===== src/Http/Response.antt =====
-- wruster/src/http/mod.rs: `Response`. `Response::write` changes the response that it writes: the
-- length 0 stays among its headers and its content is used up.
pub mod RoundTrip
pub mod Repeat
pub mod Content
pub mod Terminates
pub mod Undeclared
use wruster.Base.{ℕ, Option, none, some, [], ◌∷◌, ◌++◌, Bytes, length, codes}
use wruster.Base.Decimal.{decimal}
use wruster.Http.Body
use wruster.Http.Body.{Mime, BufWriter, Body, content_type_name, take_input}
use wruster.Http.Error.{HttpResult, ok, ◌>>=◌}
use wruster.Http.Header.{Header}
use wruster.Http.Headers
use wruster.Http.Headers.{Headers}
use wruster.Http.Io.{Input, Output}
use wruster.Http.Request.{announced, write_body, content_length_header}
use wruster.Http.ResponseLine
use wruster.Http.ResponseLine.{HttpResponseLine}
use wruster.Http.Status
use wruster.Http.Status.{StatusCode}
use wruster.Http.Version
use wruster.Http.Version.{http1_1}

pub record Response (Media : Type 0) : Type 0 where
  pub status : StatusCode
  pub headers : Headers
  pub body : Option (Body Media)

-- A body whose content was copied away.
unfoldable pub used_up : {Media : Type 0} → Option (Body Media) → Option (Body Media)
used_up none = none
used_up (some body) =
    some (record body { content = record { unread = []; ending = body.content.ending } })

module _ (mime : Mime) where
  open mime use {Media, print, text_plain}

  abbrev pub line_of : Response Media → HttpResponseLine
  line_of r = record {
    http_version = Version.to_string http1_1;
    status_code = Status.clone r.status;
    reason_phrase = Status.to_string (Status.clone r.status);
  }

  -- `Response::write`: the response as it is afterwards, and the writer.
  unfoldable pub write : BufWriter → Response Media → Output → HttpResult (Response Media × Output)
  write buffered r to = ResponseLine.write (line_of r) to >>= λ to1.
      Headers.write (announced r.body r.headers) to1 >>= λ to2.
      write_body mime buffered r.body to2 >>= λ to3.
      ok (record r { headers = announced r.body r.headers; body = used_up r.body }, to3)

  -- `Response::read_from`; the fuels are those of the loops that read the headers.
  unfoldable pub read_from : ℕ → ℕ → Input → HttpResult (Response Media)
  read_from lines fuel from = ResponseLine.read_from from >>= λ (line, from1).
      Headers.read_from lines fuel from1 >>= λ (headers, from2).
      Body.read_from mime from2 headers >>= λ body.
      ok (record { status = line.status_code; headers = headers; body = body })

  -- `Response::from_status`
  unfoldable pub from_status : StatusCode → Response Media
  from_status status = record { status = status; headers = Headers.new; body = none }

  -- `Response::from_content`
  unfoldable pub from_content : Input → ℕ → Media → Response Media
  from_content content size media = record {
    status = Status.ok;
    headers =
        Headers.add (Headers.add Headers.new (content_length_header (decimal size)))
          (record { name = content_type_name; value = print media });
    body = some (Body.new mime (some media) size (take_input size content));
  }

  -- `FromStr for Response`
  unfoldable pub from_str : Bytes → Response Media
  from_str content = record {
    status = Status.ok;
    headers = Headers.new;
    body = some (
        Body.new mime (some text_plain) (length content)
          (record { unread = content; ending = none }));
  }

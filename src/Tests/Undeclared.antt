-- ===== src/Tests/Undeclared.antt =====
-- Messages without a length among their headers.
use wruster.Base.{◌≡◌, refl, none, some, [], ◌++◌, Bytes, arith, codes}
use wruster.Http.Body
use wruster.Http.Body.{Body}
use wruster.Http.Error.{ok}
use wruster.Http.Headers
use wruster.Http.Io.{Output}
use wruster.Http.Method.{post}
use wruster.Http.Request
use wruster.Http.Request.{Request, line_of}
use wruster.Http.RequestLine.RoundTrip.{IsWritable}
use wruster.Http.Response
use wruster.Http.Response.Undeclared.{read_response-without_length}
use wruster.Http.Response.{Response}
use wruster.Http.Status
use wruster.Http.Version
use wruster.Tests.Messages.{mime, buffered, input}

abbrev greeting : Body Bytes
greeting = record {
  content_type = some (codes "text/plain");
  content_length = 2;
  content = input (codes "hi");
  bytes_read = 0;
}

abbrev sent_text : Request Bytes
sent_text = record {
  method = post;
  uri = codes "/a";
  version = codes "HTTP/1.1";
  headers = [];
  body = some greeting;
}

-- It is what `Request::from` makes.
from-greeting : Request.from mime (codes "hi") (codes "text/plain") post (codes "/a") ≡ sent_text
unfolding Request.from Body.from Body.new Headers.new Version.to_string
from-greeting = refl

sent_text-IsWritable : IsWritable (line_of mime sent_text)
sent_text-IsWritable = record {
  uri_ascii = ground arith;
  uri_ne_nil = ground arith;
  uri_no_space = ground arith;
  version_ascii = ground arith;
  version_ne_nil = ground arith;
  version_no_newline = ground arith;
}

abbrev text : Response Bytes
text = record { status = Status.ok; headers = []; body = some greeting }

-- It is what `Response::from_str` makes.
from_str-greeting : Response.from_str mime (codes "hi") ≡ text
unfolding Response.from_str Body.new Headers.new
from_str-greeting = refl

read_response-without_length_example :
    (after : Response Bytes) × (sent : Output) × (Response.write mime buffered text
        (record { written = []; calls = [] })
      ≡ ok (after, sent))
    × (Response.read_from mime 1 1 (record { unread = sent.written ++ codes "HTTP"; ending = none })
        ≡ ok (record text { body = none }))
unfolding Headers.get
read_response-without_length_example =
    read_response-without_length mime buffered 0 0 text greeting (codes "HTTP") none refl refl
      (λ code e. cc) tt refl refl

-- ===== src/Tests/Messages.antt =====
-- Request lines, headers, bodies and whole requests at small inputs. A media type is its own text.
use wruster.Base.{◌≡◌, refl, none, some, [], ◌∷◌, ◌++◌, Bytes, arith, codes, equal}
use wruster.Http.Body.Framing.{IsFramed, ensure_read-drains}
use wruster.Http.Body.{
  Mime, BufWriter, Body, read, ensure_read, transfer_encoding, content_length_name,
  content_type_name, declared_type,
}
use wruster.Base.Decimal.{decimal}
use wruster.Http.Chars.{
  contains, is_valid_token_char, is_ascii, is_ascii_alphanumeric, to_ascii_uppercase,
  is_valid_field_content, is_valid_vchar, is_optional_white_space,
}
use wruster.Http.Header.Line
use wruster.Http.Header.Line.{IsText}
use wruster.Http.Header.{normalize_header_name, skip_white_space}
use wruster.Http.Error.{ok}
use wruster.Http.Headers
use wruster.Http.Headers.Stream.{IsWritableAfter, read_from-lines_of, lines_of}
use wruster.Http.Headers.{Headers}
use wruster.Http.Io.{Input, Output}
use wruster.Http.Method.{get}
use wruster.Http.Request
use wruster.Http.Request.RoundTrip.{IsSendable, read_from-write}
use wruster.Http.Request.{Request, announced}
use wruster.Http.RequestLine.RoundTrip.{IsWritable}
use wruster.Http.RequestLine.{HttpRequestLine}

abbrev pub mime : Mime
mime = record {
  Media = Bytes;
  parse = some;
  parse_failure = λ s. s;
  print = λ s. s;
  text_plain = codes "text/plain";
  parse-print = λ m. refl;
}

abbrev append : Output → Bytes → Output
append to buf = record { written = to.written ++ buf; calls = [] }

abbrev pub buffered : BufWriter
buffered = record { copy = λ to buf. ok (append to buf); copy-reliable = λ written buf. refl }

abbrev pub input : Bytes → Input
input bytes = record { unread = bytes; ending = none }

abbrev line : HttpRequestLine
line = record { method = get; uri = codes "/a"; version = codes "HTTP/1.1" }

line-IsWritable : IsWritable line
line-IsWritable = record {
  uri_ascii = ground arith;
  uri_ne_nil = ground arith;
  uri_no_space = ground arith;
  version_ascii = ground arith;
  version_ne_nil = ground arith;
  version_no_newline = ground arith;
}

abbrev pub headers : Headers
headers =
    (codes "Content-Length", codes "3" ∷ []) ∷ (codes "Accept", codes "a" ∷ codes "b" ∷ []) ∷ []

accept-IsWritable :
    (value : Bytes)
    → IsText value
    → skip_white_space value ≡ value
    → Line.IsWritable (record { name = codes "Accept"; value = value })
unfolding is_valid_token_char contains is_ascii is_ascii_alphanumeric normalize_header_name
    skip_white_space to_ascii_uppercase is_valid_field_content is_valid_vchar
    is_optional_white_space
accept-IsWritable value text start = record {
  name_token = ground arith;
  name_ne_nil = ground arith;
  name_normal = refl;
  value_text = text;
  value_starts = start;
}

length-IsWritable : Line.IsWritable (record { name = codes "Content-Length"; value = codes "3" })
unfolding is_valid_token_char contains is_ascii is_ascii_alphanumeric normalize_header_name
    skip_white_space to_ascii_uppercase is_valid_field_content is_valid_vchar
    is_optional_white_space
length-IsWritable = record {
  name_token = ground arith;
  name_ne_nil = ground arith;
  name_normal = refl;
  value_text = ground arith;
  value_starts = refl;
}

pub headers-IsWritable : IsWritableAfter [] headers
unfolding Headers.get equal is_valid_field_content is_valid_vchar is_optional_white_space
    skip_white_space
headers-IsWritable = (
  refl,
  ground arith,
  (length-IsWritable, tt),
  (
    refl,
    ground arith,
    (
      accept-IsWritable (codes "a") (ground arith) refl,
      (accept-IsWritable (codes "b") (ground arith) refl, tt),
    ),
    tt,
  ),
)

pub no_encoding : Headers.get headers transfer_encoding ≡ none
unfolding Headers.get equal
no_encoding = refl

pub length_three : Headers.get headers content_length_name ≡ some (decimal 3 ∷ [])
unfolding Headers.get equal decimal
length_three = refl

pub no_type : declared_type mime (Headers.get headers content_type_name) ≡ ok none
unfolding Headers.get equal declared_type
no_type = refl

abbrev pub body : Body Bytes
body = record {
  content_type = none;
  content_length = 3;
  content = input (codes "xyz");
  bytes_read = 0;
}

abbrev pub half_read : Body Bytes
half_read = record {
  content_type = none;
  content_length = 3;
  content = input (codes "yz");
  bytes_read = 1;
}

read_half : read mime 1 body ≡ ok (codes "x", half_read)
unfolding read
read_half = refl

pub half_read-IsFramed : IsFramed mime half_read
half_read-IsFramed = ground arith

ensure_read-drains_example :
    (b : Body Bytes) × (ensure_read mime half_read ≡ ok b) × (b.content.unread ≡ [])
ensure_read-drains_example = ensure_read-drains mime half_read half_read-IsFramed

read_from-lines_of_example :
    Headers.read_from 1 4 (input (lines_of headers ++ codes "xyz"))
    ≡ ok (headers, input (codes "xyz"))
read_from-lines_of_example = read_from-lines_of 0 none 0 headers (codes "xyz") headers-IsWritable

abbrev pub request : Request Bytes
request = record {
  method = get;
  uri = codes "/a";
  version = codes "HTTP/1.1";
  headers = headers;
  body = some body;
}

pub request-IsSendable : IsSendable mime request
unfolding announced
request-IsSendable = record {
  line = line-IsWritable;
  headers = headers-IsWritable;
  no_encoding = no_encoding;
  declared = (ground arith, ground arith, refl, refl, refl, length_three, no_type);
}

read_from-write_example :
    (sent : Output) × (Request.write mime buffered request (record { written = []; calls = [] })
      ≡ ok sent)
    × (Request.read_from mime 1 4 (record { unread = sent.written ++ codes "GET"; ending = none })
        ≡ ok request)
unfolding announced
read_from-write_example =
    read_from-write mime buffered 0 0 request (codes "GET") none request-IsSendable

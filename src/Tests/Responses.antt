-- ===== src/Tests/Responses.antt =====
-- Status lines, and responses at small inputs.
use wruster.Base.{◌≡◌, refl, none, some, [], Bytes, arith, codes, equal, ◌++◌}
use wruster.Base.Decimal.{decimal, decimal_fuel}
use wruster.Http.Io
use wruster.Http.Header
use wruster.Http.Version
use wruster.Http.Header.{normalize_header_name, skip_white_space}
use wruster.Http.Error.{ok}
use wruster.Http.Headers
use wruster.Http.Headers.{Headers}
use wruster.Http.Io.{Input, Output, takes}
use wruster.Http.Response
use wruster.Http.Response.RoundTrip
use wruster.Http.Response.RoundTrip.{read_from-write_response}
use wruster.Http.Response.{Response}
use wruster.Http.ResponseLine
use wruster.Http.ResponseLine.RoundTrip.{IsStandard}
use wruster.Http.Status
use wruster.Http.Status.{not_found, reason, to_usize}
use wruster.Http.Request
use wruster.Http.Request.{Request, announced}
use wruster.Tests.Messages.{
  mime, buffered, headers, body, headers-IsWritable, no_encoding, length_three, no_type,
}

not_found-IsStandard : IsStandard not_found
not_found-IsStandard code e = cc

abbrev pub response : Response Bytes
response = record { status = not_found; headers = headers; body = some body }

pub response-IsSendable : RoundTrip.IsSendable mime response
unfolding announced
response-IsSendable = record {
  standard = not_found-IsStandard;
  headers = headers-IsWritable;
  no_encoding = no_encoding;
  declared = (ground arith, ground arith, refl, refl, refl, length_three, no_type);
}

read_from-write_response_example :
    (after : Response Bytes) × (sent : Output) × (Response.write mime buffered response
        (record { written = []; calls = [] })
      ≡ ok (after, sent))
    × (Response.read_from mime 1 4 (record { unread = sent.written ++ codes "HTTP"; ending = none })
        ≡ ok response)
unfolding announced
read_from-write_response_example =
    read_from-write_response mime buffered 0 0 response (codes "HTTP") none response-IsSendable

abbrev bare : Response Bytes
bare = record { status = not_found; headers = []; body = none }

abbrev bare_sent : Output
bare_sent = record {
  written = codes "HTTP/1.1 404 Not Found\r\nContent-Length: 0\r\n\r\n";
  calls = [];
}

write-bare :
    Response.write mime buffered bare (record { written = []; calls = [] })
    ≡ ok (record bare { headers = announced bare.body bare.headers }, bare_sent)
unfolding Response.write ResponseLine.write Io.write Io.write_call Headers.write
    Headers.write_entries announced Headers.add Headers.push_value Headers.write_values Header.write
    Io.write_all Io.write_all_calls Request.write_body Response.used_up ResponseLine.line_of
    Version.to_string Status.to_string Status.clone decimal decimal_fuel to_usize reason equal
write-bare = refl

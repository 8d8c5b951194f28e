-- ===== src/Http/Status.antt =====
-- wruster/src/http/status.rs: the status codes, their numbers and their reasons.
pub mod Laws
use wruster.Base.{ℕ, ◌≡◌, List, [], ◌∷◌, ◌++◌, Bytes, codes, ◌==◌, if◌then◌else◌}
use wruster.Base.Decimal.{decimal}

pub data StatusCode : Type 0 where
  continue switching_protocols ok : StatusCode
  created accepted non_authoritative_information : StatusCode
  no_content reset_content partial_content : StatusCode
  multiple_choices moved_permanently found : StatusCode
  see_other not_modified use_proxy : StatusCode
  temporary_redirect bad_request unauthorized : StatusCode
  payment_required forbidden not_found : StatusCode
  method_not_allowed not_acceptable proxy_authentication_required : StatusCode
  request_time_out conflict gone : StatusCode
  length_required precondition_failed request_entity_too_large : StatusCode
  request_uri_too_large unsupported_media_type requested_range_not_satisfiable : StatusCode
  expectation_failed internal_server_error not_implemented : StatusCode
  bad_gateway service_unavailable gateway_time_out : StatusCode
  http_version_not_supported : StatusCode
  extension_code : ℕ → StatusCode

unfoldable pub reason : StatusCode → Bytes
reason continue = codes "Continue"
reason switching_protocols = codes "Switching Protocols"
reason ok = codes "OK"
reason created = codes "Created"
reason accepted = codes "Accepted"
reason non_authoritative_information = codes "Non-Authoritative Information"
reason no_content = codes "No Content"
reason reset_content = codes "Reset Content"
reason partial_content = codes "Partial Content"
reason multiple_choices = codes "Multiple Choices"
reason moved_permanently = codes "Moved Permanently"
reason found = codes "Found"
reason see_other = codes "See Other"
reason not_modified = codes "Not Modified"
reason use_proxy = codes "Use Proxy"
reason temporary_redirect = codes "Temporary Redirect"
reason bad_request = codes "Bad Request"
reason unauthorized = codes "Unauthorized"
reason payment_required = codes "Payment Required"
reason forbidden = codes "Forbidden"
reason not_found = codes "Not Found"
reason method_not_allowed = codes "Method Not Allowed"
reason not_acceptable = codes "Not Acceptable"
reason proxy_authentication_required = codes "Proxy Authentication Required"
reason request_time_out = codes "Request Time-out"
reason conflict = codes "Conflict"
reason gone = codes "Gone"
reason length_required = codes "Length Required"
reason precondition_failed = codes "Precondition Failed"
reason request_entity_too_large = codes "Request Entity Too Large"
reason request_uri_too_large = codes "Request-URI Too Large"
reason unsupported_media_type = codes "Unsupported Media Type"
reason requested_range_not_satisfiable = codes "Requested range not satisfiable"
reason expectation_failed = codes "Expectation Failed"
reason internal_server_error = codes "Internal Server Error"
reason not_implemented = codes "Not Implemented"
reason bad_gateway = codes "Bad Gateway"
reason service_unavailable = codes "Service Unavailable"
reason gateway_time_out = codes "Gateway Time-out"
reason http_version_not_supported = codes "HTTP Version not supported"
reason (extension_code _) = codes "Extension code"

-- The arms of the match on a number, in their order.
unfoldable pub arms : List (ℕ × StatusCode)
arms =
    (100, continue)
    ∷ (101, switching_protocols)
    ∷ (200, ok)
    ∷ (201, created)
    ∷ (202, accepted)
    ∷ (203, non_authoritative_information)
    ∷ (204, no_content)
    ∷ (205, reset_content)
    ∷ (206, partial_content)
    ∷ (300, multiple_choices)
    ∷ (301, moved_permanently)
    ∷ (302, found)
    ∷ (303, see_other)
    ∷ (304, not_modified)
    ∷ (305, use_proxy)
    ∷ (307, temporary_redirect)
    ∷ (400, bad_request)
    ∷ (401, unauthorized)
    ∷ (402, payment_required)
    ∷ (403, forbidden)
    ∷ (404, not_found)
    ∷ (405, method_not_allowed)
    ∷ (406, not_acceptable)
    ∷ (407, proxy_authentication_required)
    ∷ (408, request_time_out)
    ∷ (409, conflict)
    ∷ (410, gone)
    ∷ (411, length_required)
    ∷ (412, precondition_failed)
    ∷ (413, request_entity_too_large)
    ∷ (414, request_uri_too_large)
    ∷ (415, unsupported_media_type)
    ∷ (416, requested_range_not_satisfiable)
    ∷ (417, expectation_failed)
    ∷ (500, internal_server_error)
    ∷ (501, not_implemented)
    ∷ (502, bad_gateway)
    ∷ (503, service_unavailable)
    ∷ (504, gateway_time_out)
    ∷ (505, http_version_not_supported)
    ∷ []

unfoldable pub first_arm : List (ℕ × StatusCode) → ℕ → StatusCode
first_arm [] code = extension_code code
first_arm ((k, s) ∷ rest) code = if code == k then s else first_arm rest code

-- `From<usize> for StatusCode`
unfoldable pub from_usize : ℕ → StatusCode
unfolding first_arm arms
from_usize = first_arm arms

-- `From<&StatusCode> for usize`
unfoldable pub to_usize : StatusCode → ℕ
to_usize continue = 100
to_usize switching_protocols = 101
to_usize ok = 200
to_usize created = 201
to_usize accepted = 202
to_usize non_authoritative_information = 203
to_usize no_content = 204
to_usize reset_content = 205
to_usize partial_content = 206
to_usize multiple_choices = 300
to_usize moved_permanently = 301
to_usize found = 302
to_usize see_other = 303
to_usize not_modified = 304
to_usize use_proxy = 305
to_usize temporary_redirect = 307
to_usize bad_request = 400
to_usize unauthorized = 401
to_usize payment_required = 402
to_usize forbidden = 403
to_usize not_found = 404
to_usize method_not_allowed = 405
to_usize not_acceptable = 406
to_usize proxy_authentication_required = 407
to_usize request_time_out = 408
to_usize conflict = 409
to_usize gone = 410
to_usize length_required = 411
to_usize precondition_failed = 412
to_usize request_entity_too_large = 413
to_usize request_uri_too_large = 414
to_usize unsupported_media_type = 415
to_usize requested_range_not_satisfiable = 416
to_usize expectation_failed = 417
to_usize internal_server_error = 500
to_usize not_implemented = 501
to_usize bad_gateway = 502
to_usize service_unavailable = 503
to_usize gateway_time_out = 504
to_usize http_version_not_supported = 505
to_usize (extension_code code) = code

-- `Display`, and the conversion to a `String`.
unfoldable pub to_string : StatusCode → Bytes
to_string s = decimal (to_usize s) ++ (b' ' ∷ reason s)

unfoldable pub clone : StatusCode → StatusCode
clone continue = continue
clone switching_protocols = switching_protocols
clone ok = ok
clone created = created
clone accepted = accepted
clone non_authoritative_information = non_authoritative_information
clone no_content = no_content
clone reset_content = reset_content
clone partial_content = partial_content
clone multiple_choices = multiple_choices
clone moved_permanently = moved_permanently
clone found = found
clone see_other = see_other
clone not_modified = not_modified
clone use_proxy = use_proxy
clone temporary_redirect = temporary_redirect
clone bad_request = bad_request
clone unauthorized = unauthorized
clone payment_required = payment_required
clone forbidden = forbidden
clone not_found = not_found
clone method_not_allowed = method_not_allowed
clone not_acceptable = not_acceptable
clone proxy_authentication_required = proxy_authentication_required
clone request_time_out = request_time_out
clone conflict = conflict
clone gone = gone
clone length_required = length_required
clone precondition_failed = precondition_failed
clone request_entity_too_large = request_entity_too_large
clone request_uri_too_large = request_uri_too_large
clone unsupported_media_type = unsupported_media_type
clone requested_range_not_satisfiable = requested_range_not_satisfiable
clone expectation_failed = expectation_failed
clone internal_server_error = internal_server_error
clone not_implemented = not_implemented
clone bad_gateway = bad_gateway
clone service_unavailable = service_unavailable
clone gateway_time_out = gateway_time_out
clone http_version_not_supported = http_version_not_supported
clone (extension_code code) = extension_code code

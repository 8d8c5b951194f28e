-- ===== src/Tests/Refusals.antt =====
-- Connections that the server answers without a handler.
use wruster.Base.{ℕ, ◌≡◌, refl, true, none, some, [], ◌++◌, Bytes, codes}
use wruster.Http.Error.{err, invalid_request}
use wruster.Http.Io.{Input, Output, read_until, until}
use wruster.Http.Request
use wruster.Http.RequestLine
use wruster.Http.RequestLine.{debug_bytes, parse_method}
use wruster.Http.Status.{bad_request, service_unavailable}
use wruster.Router.Routes
use wruster.Router.Routes.{Router}
use wruster.Server.Conversation.Refusals.{
  IsRefusal, handle_busy-refuses, handle_conversation-refuses,
}
use wruster.Server.Conversation.{Handler, shut_down, handle_busy, handle_conversation}
use wruster.Tests.Messages.{mime, buffered}

abbrev empty : Output
empty = record { written = []; calls = [] }

handle_busy-refuses_example :
    (reply : Output) × (handle_busy mime buffered empty ≡ shut_down (some reply))
    × IsRefusal mime service_unavailable reply
handle_busy-refuses_example = handle_busy-refuses mime buffered

-- No method comes first.
abbrev nonsense : ℕ → Input
nonsense k = record { unread = codes " hello\n"; ending = none }

abbrev complaint : Bytes
complaint = codes "invalid request line " ++ debug_bytes (codes " ")

nonsense-invalid : Request.read_from mime 3 3 (nonsense 0) ≡ err (invalid_request complaint)
unfolding Request.read_from RequestLine.read_from read_until until parse_method
nonsense-invalid = refl

abbrev no_routes : Router (Handler Bytes)
no_routes = Routes.new

handle_conversation-refuses_example :
    (reply : Output) × (handle_conversation mime buffered no_routes 3 3 nonsense
        (λ k. true)
        1
        0
        empty
      ≡ shut_down (some reply))
    × IsRefusal mime bad_request reply
handle_conversation-refuses_example =
    handle_conversation-refuses mime buffered no_routes 3 3 nonsense (λ k. true) 0 0
      (invalid_request complaint) nonsense-invalid refl

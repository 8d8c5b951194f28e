-- ===== src/Tests/Server.antt =====
-- The server at small inputs.
use wruster.Base.{
  ℕ, zero, suc, ◌<◌, ◌≡◌, ◌≢◌, refl, ◌⊎◌, true, none, some, List, [], ◌∷◌, ◌++◌, Bytes, All, arith,
  codes, equal, length,
}
use wruster.Http.Error.{IoError, connection_reset, ok, running}
use wruster.Http.Io.{Input, Output}
use wruster.Http.Headers
use wruster.Http.Method.{get as get_method}
use wruster.Http.Request
use wruster.Http.Request.{Request, announced, connection_value, is_connection_persistent}
use wruster.Http.Request.Terminates.{read_from-terminates}
use wruster.Http.Response
use wruster.Http.Response.{Response}
use wruster.Http.Status.{internal_server_error, not_found}
use wruster.Router.Normalize.Resolve.{IsName, render, resolve, read_part, joined}
use wruster.Router.Normalize.{has_root, split}
use wruster.Router.Routes
use wruster.Router.Routes.Refine.{IsRoute}
use wruster.Router.Routes.Spec.{Route, build, action_of, dispatch, nearest, is_registered}
use wruster.Router.Routes.{Router, get_prefix}
use wruster.Server.Conversation.Answer.{handle_connection-answers}
use wruster.Server.Conversation.Dispatch.{run_action-dispatch, run_action-IsName, names, served}
use wruster.Server.Conversation.InOrder.{
  Exchange, IsAnswered, inputs, replies, Reads, handle_conversation-in_order,
}
use wruster.Server.Conversation.Terminates.{handle_conversation-terminates}
use wruster.Server.Conversation.{
  Handler, answered, unending_end, shut_down, run_action, handle_connection, handle_conversation,
}
use wruster.Tests.Messages.{
  mime, buffered, request, request-IsSendable, half_read, half_read-IsFramed,
}
use wruster.Tests.Responses.{response, response-IsSendable}

-- A handler that reads a byte of the body.
abbrev reads_one : Handler Bytes
reads_one q = (response, record q { body = some half_read })

abbrev pub routes : List (Route (Handler Bytes))
routes = record { path = codes "/a"; method = get_method; action = reads_one } ∷ []

pub routes-IsRoute : All IsRoute routes
routes-IsRoute = ground arith

abbrev climbing : Request Bytes
climbing = record request { uri = codes "/b/../a" }

run_action-dispatch_example :
    (r : Router (Handler Bytes)) × (build routes ≡ some r)
    × (run_action mime r climbing
        ≡ (response, record climbing { uri = codes "/a"; body = some half_read }))
unfolding dispatch nearest is_registered action_of equal has_root split resolve read_part render
    joined
run_action-dispatch_example = run_action-dispatch mime routes climbing routes-IsRoute

abbrev no_routes : Router (Handler Bytes)
no_routes = Routes.new

run_action-IsName_example :
    (run_action mime no_routes request ≡ (Response.from_status mime internal_server_error, request))
    ⊎ ((run_action mime no_routes request ≡ (Response.from_status mime not_found, request))
        ⊎ ((st : List Bytes) × (action : Handler Bytes) × All IsName st
            × (get_prefix no_routes (render st) request.method ≡ some action)
            × (run_action mime no_routes request ≡ action (record request { uri = render st }))))
run_action-IsName_example = run_action-IsName mime no_routes request

pub request-served :
    served mime routes request (names mime request.uri)
    ≡ (response, record request { body = some half_read })
unfolding dispatch nearest is_registered action_of equal has_root split resolve read_part render
    joined
request-served = refl

handle_connection-answers_example :
    (r : Router (Handler Bytes)) × (sent reply : Output) × (build routes ≡ some r)
    × (Request.write mime buffered request (record { written = []; calls = [] }) ≡ ok sent)
    × (handle_connection mime buffered r 1 4
          (record { unread = sent.written ++ codes "GET"; ending = none })
          (record { written = []; calls = [] })
        ≡ answered (is_connection_persistent request) reply)
    × (Response.read_from mime 1 4 (record { unread = reply.written ++ []; ending = none })
        ≡ ok response)
unfolding announced
handle_connection-answers_example =
    handle_connection-answers mime routes request (record request { body = some half_read })
      response buffered 0 0 (codes "GET") [] none none routes-IsRoute request-IsSendable
      request-served response-IsSendable half_read-IsFramed

abbrev reset : IoError
reset = record { kind = connection_reset; message = codes "reset" }

abbrev partial_line : Input
partial_line = record { unread = codes "GET /"; ending = some reset }

read_from-terminates_example : Request.read_from mime 6 6 partial_line ≢ running
read_from-terminates_example =
    read_from-terminates mime 6 6 partial_line reset (ground arith) (ground arith) refl

-- A request in the first round, and nothing after it.
abbrev one_request : ℕ → Input
one_request zero = record {
  unread = codes "GET /a HTTP/1.1\r\nConnection: close\r\n\r\n";
  ending = some reset;
}
one_request (suc k) = record { unread = []; ending = some reset }

one_request-ends : (k : ℕ) → (e : IoError) × (one_request k).ending ≡ some e
one_request-ends zero = (reset, refl)
one_request-ends (suc k) = (reset, refl)

one_request-short : (k : ℕ) → length (one_request k).unread < 50
one_request-short zero = ground arith
one_request-short (suc k) = ground arith

handle_conversation-terminates_example :
    handle_conversation mime buffered no_routes 50 50 one_request
      (λ k. true)
      2
      0
      (record { written = []; calls = [] })
    ≢ unending_end
handle_conversation-terminates_example =
    handle_conversation-terminates mime buffered (λ to buf. tt) no_routes 50 50 one_request
      (λ k. true) one_request-ends one_request-short one_request-short 1
      (record { written = []; calls = [] }) refl

request-stays : is_connection_persistent request ≡ true
unfolding is_connection_persistent connection_value Headers.get equal
request-stays = refl

abbrev exchange : Bytes → Exchange mime
exchange behind = record {
  request = request;
  behind = behind;
  ending = none;
  response = response;
  used = record request { body = some half_read };
}

exchange-IsAnswered : (behind : Bytes) → IsAnswered mime routes 5 (exchange behind)
unfolding announced
exchange-IsAnswered behind = record {
  sendable = request-IsSendable;
  stays = request-stays;
  short = omega arith;
  serves = request-served;
  answers = response-IsSendable;
  readable = half_read-IsFramed;
}

-- Two requests, of which the first came with bytes behind it.
handle_conversation-in_order_example :
    (r : Router (Handler Bytes)) × (build routes ≡ some r)
    × (handle_conversation mime buffered r 1 5
          (inputs mime (exchange (codes "GET /a HTTP/1.1\r\n\r\n") ∷ exchange [] ∷ []))
          (λ i. true)
          3
          0
          (record { written = []; calls = [] })
        ≡ shut_down (
            some (record {
              written =
                  replies mime (exchange (codes "GET /a HTTP/1.1\r\n\r\n") ∷ exchange [] ∷ []);
              calls = [];
            })))
    × Reads mime (exchange (codes "GET /a HTTP/1.1\r\n\r\n") ∷ exchange [] ∷ [])
handle_conversation-in_order_example =
    handle_conversation-in_order mime routes 5 buffered 0
      (exchange (codes "GET /a HTTP/1.1\r\n\r\n") ∷ exchange [] ∷ []) routes-IsRoute
      (exchange-IsAnswered (codes "GET /a HTTP/1.1\r\n\r\n"), (exchange-IsAnswered [], tt))

-- ===== src/Tests/ClientRun.antt =====
-- A client that talks to the server.
use wruster.Base.{
  ℕ, ◌≡◌, refl, ap, ◌∙◌, true, Option, none, some, [], ◌∷◌, ◌++◌, Bytes, arith, codes, equal,
}
use wruster.Client.ConnectionPool
use wruster.Client.ConnectionPool.{Pool, PoolResource}
use wruster.Client.Run.Reuse.{drop_response-reuses}
use wruster.Client.Run.Served.{IsOpen, IsServed, run-served}
use wruster.Client.Run.{
  Network, ClientResponse, connection, run, drop_response, consume, put_back, resource_or_connect,
}
use wruster.Http.Body
use wruster.Http.Error.{ok}
use wruster.Http.Headers
use wruster.Http.Io.{Input}
use wruster.Http.Request.{announced, connection_value, is_connection_persistent}
use wruster.Router.Routes.Spec.{build}
use wruster.Router.Routes.{Router}
use wruster.Server.Conversation.{Handler, Round, answered, handle_connection}
use wruster.Tests.Messages.{
  mime, buffered, request, request-IsSendable, half_read, half_read-IsFramed,
}
use wruster.Tests.Responses.{response, response-IsSendable}
use wruster.Tests.Server.{routes, routes-IsRoute, request-served}

abbrev nothing : Input
nothing = record { unread = []; ending = none }

abbrev reply_of : Round → Input
reply_of (answered stays to) = record { unread = to.written ++ []; ending = none }
reply_of _ = nothing

abbrev behind : Option (Router (Handler Bytes)) → Bytes → Input
behind none written = nothing
behind (some r) written = reply_of (
    handle_connection mime buffered r 1 4 (record { unread = written ++ []; ending = none })
      (record { written = []; calls = [] }))

-- The server behind the network, for requests with as many lines as the one that is sent.
abbrev network : Network
network = record {
  Conn = ℕ;
  connect = λ addr. ok 1;
  try_clone = λ c. ok tt;
  output = λ c. record { written = []; calls = [] };
  flush = λ c written. ok tt;
  reply = λ c written. behind (build routes) written;
}

network-IsServed : IsServed mime network routes buffered 0 0 [] [] none none request 1
unfolding announced
network-IsServed r sent reply stays built handled =
    ap (λ m. behind m sent.written) built ∙ ap reply_of handled

network-IsOpen : IsOpen mime network routes buffered 0 0 [] [] none none 1
network-IsOpen = record { cloned = refl; reliable = refl; flushed = λ written. refl }

abbrev addr : Bytes
addr = codes "a:1"

first-connection : connection mime network [] addr request ≡ (ok 1, [])
unfolding connection is_connection_persistent ConnectionPool.get equal connection_value Headers.get
    resource_or_connect ConnectionPool.remove ConnectionPool.lookup
first-connection = refl

run-served_example :
    run mime network buffered 1 4 [] addr request
    ≡ (ok (record { response = response; conn = 1; addr = addr }), [])
unfolding announced
run-served_example =
    run-served mime network routes buffered 0 0 [] [] none none request
      (record request { body = some half_read }) response 1 [] [] addr routes-IsRoute
      request-IsSendable request-served response-IsSendable half_read-IsFramed first-connection
      network-IsOpen network-IsServed

abbrev answer : ClientResponse mime network
answer = record { response = response; conn = 1; addr = addr }

abbrev after_drop : Pool ℕ
after_drop = (addr, record { resource = 1; last_used = 5 }) ∷ []

answer-dropped : drop_response mime network 5 answer [] ≡ some after_drop
unfolding drop_response consume Body.ensure_read Body.drain put_back ConnectionPool.insert
    ConnectionPool.put
answer-dropped = refl

request-persistent : is_connection_persistent request ≡ true
unfolding is_connection_persistent equal connection_value Headers.get
request-persistent = refl

drop_response-reuses_example : connection mime network after_drop addr request ≡ (ok 1, [])
unfolding ConnectionPool.remove equal
drop_response-reuses_example =
    drop_response-reuses mime network 5 answer [] after_drop request (ground arith) refl
      answer-dropped request-persistent

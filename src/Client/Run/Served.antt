-- ===== src/Client/Run/Served.antt =====
-- wruster/src/http/client/mod.rs and wruster/src/lib.rs: a client that talks to a server.
use wruster.Base.{ℕ, suc, ◌+◌, ◌≡◌, Bool, Option, some, List, [], ◌++◌, Bytes, All}
use wruster.Client.ConnectionPool.{Pool}
use wruster.Client.Run.{Network, connection, exchange, run}
use wruster.Http.Body.{Mime, BufWriter}
use wruster.Http.Error.{IoError, ok}
use wruster.Http.Headers.Stream.{count_lines}
use wruster.Http.Io.{Output}
use wruster.Http.Request.RoundTrip as Sent
use wruster.Http.Request.{Request, announced}
use wruster.Http.Response.RoundTrip as Reply
use wruster.Http.Response.{Response}
use wruster.Router.Routes.Refine.{IsRoute}
use wruster.Router.Routes.Spec.{Route, build}
use wruster.Router.Routes.{Router}
use wruster.Server.Conversation.Answer.{IsReadable, received, handle_connection-answers}
use wruster.Server.Conversation.Dispatch.{names, served}
use wruster.Server.Conversation.{Handler, answered, handle_connection}

module _ (mime : Mime) (N : Network) (es : List (Route (Handler mime.Media))) (buffered : BufWriter)
    (lines fuel : ℕ) (rest after : Bytes) (ending closing : Option IoError) where
  open mime use {Media}
  open N use {Conn}

  -- The connection leads to a server with the routes: what a round there answers to the bytes that
  -- were written is what there is to read.
  abbrev pub IsServed : Request Media → Conn → Type 0
  IsServed q conn =
      (r : Router (Handler Media)) (sent reply : Output) (stays : Bool)
      → build es ≡ some r
      → handle_connection mime buffered r (suc lines)
          (count_lines (announced q.body q.headers) + fuel)
          (record { unread = sent.written ++ rest; ending = ending })
          (record { written = []; calls = [] })
        ≡ answered stays reply
      → N.reply conn sent.written ≡ record { unread = reply.written ++ after; ending = closing }

  -- The connection can be cloned and flushed, and takes everything that is written.
  pub record IsOpen (conn : Conn) : Type 0 where
    pub cloned : N.try_clone conn ≡ ok tt
    pub reliable : N.output conn ≡ record { written = []; calls = [] }
    pub flushed : (written : Bytes) → N.flush conn written ≡ ok tt

  -- A client that sends a sendable request on an open connection to a server gets the response that
  -- the server's routes serve the request with, with the length 0 added to its headers when it has
  -- no body, if that response is sendable and its handler left a framed body or none.
  pub run-served :
      (q used : Request Media) (response : Response Media) (conn : Conn) (pool left : Pool Conn)
      (addr : Bytes)
      → All IsRoute es
      → Sent.IsSendable mime q
      → served mime es (received mime q) (names mime q.uri) ≡ (response, used)
      → Reply.IsSendable mime response
      → IsReadable mime used.body
      → connection mime N pool addr q ≡ (ok conn, left)
      → IsOpen conn
      → IsServed q conn
      → run mime N buffered
          (suc lines)
          (count_lines (announced response.body response.headers) + fuel)
          pool
          addr
          q
        ≡ (
          ok (record {
            response = record response { headers = announced response.body response.headers };
            conn = conn;
            addr = addr;
          }),
          left,
        )
  unfolding run exchange
  run-served q used response conn pool left addr routed sendable serves answers readable acquired
        is_open is_served =
      let (r, sent, reply, built, written, handled, read) =
        handle_connection-answers mime es q used response buffered lines fuel rest after ending
          closing routed sendable serves answers readable in
      rw (
        acquired,
        is_open.cloned,
        is_open.reliable,
        written,
        is_open.flushed sent.written,
        is_served r sent reply _ built handled,
        read,
      )

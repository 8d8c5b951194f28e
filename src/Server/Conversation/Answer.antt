-- ===== src/Server/Conversation/Answer.antt =====
-- wruster/src/lib.rs: a round from the request that a client writes to the response that it reads.
use wruster.Base.{
  ℕ, suc, ◌+◌, ◌≡◌, refl, Option, none, some, List, [], ◌++◌, Bytes, All, codes, equal,
}
use wruster.Http.Body.Framing.{IsFramed, ensure_read-drains}
use wruster.Http.Body.{Mime, BufWriter, Body}
use wruster.Http.Error.{IoError, ok}
use wruster.Http.Headers.Lookup.{get-add}
use wruster.Http.Headers.Stream.{count_lines}
use wruster.Http.Headers.{Headers}
use wruster.Http.Io.{Output}
use wruster.Http.Request
use wruster.Http.Request.RoundTrip as Sent
use wruster.Http.Request.RoundTrip.{read_from-write}
use wruster.Http.Request.{
  Request, announced, content_length_header, connection_value, is_connection_persistent,
}
use wruster.Http.Response
use wruster.Http.Response.RoundTrip as Reply
use wruster.Http.Response.RoundTrip.{read_from-write_response}
use wruster.Http.Response.{Response}
use wruster.Router.Routes.Refine.{IsRoute}
use wruster.Router.Routes.Spec.{Route, build}
use wruster.Router.Routes.{Router}
use wruster.Server.Conversation.Dispatch.{names, served, run_action-dispatch}
use wruster.Server.Conversation.{
  Handler, answered, read_rest, respond, respond_after, after_write, serve, handle_connection,
}

connection_value-announced :
    {Media : Type 0} (body : Option (Body Media)) (headers : Headers)
    → connection_value (announced body headers) ≡ connection_value headers
unfolding connection_value announced equal
connection_value-announced none headers =
    rw (connection_value, get-add headers (content_length_header (codes "0")) (codes "Connection"))
connection_value-announced (some body) headers = refl

module _ (mime : Mime) where
  open mime use {Media}

  abbrev pub received : Request Media → Request Media
  received q = record q { headers = announced q.body q.headers }

  pub is_connection_persistent-received :
      (q : Request Media) → is_connection_persistent (received q) ≡ is_connection_persistent q
  unfolding is_connection_persistent
  is_connection_persistent-received q = rw (connection_value-announced q.body q.headers)

  -- What a handler may leave of a body: the bytes read and the bytes to come are the declared ones.
  abbrev pub IsReadable : Option (Body Media) → Type 0
  IsReadable none = Unit {0}
  IsReadable (some b) = IsFramed mime b

  pub read_rest_total :
      (body : Option (Body Media))
      → IsReadable body
      → (rest : Option (Body Media)) × (read_rest mime body ≡ ok rest)
  unfolding read_rest
  read_rest_total none h = (none, refl)
  read_rest_total (some b) h =
      let (b', drained, _) = ensure_read-drains mime b h in (some b', rw (read_rest, drained))

  -- Routes, each with a non-empty path of bytes, give a router with which a round answers a sendable
  -- request that a client wrote, whatever follows it: if the routes serve it with a sendable response
  -- and leave a framed body or none, then the client reads that response, with the length 0 added
  -- to its headers when it has no body, and the connection stays open if the request is persistent.
  pub handle_connection-answers :
      (es : List (Route (Handler Media))) (q used : Request Media) (response : Response Media)
      (buffered : BufWriter) (lines fuel : ℕ) (rest after : Bytes) (ending closing : Option IoError)
      → All IsRoute es
      → Sent.IsSendable mime q
      → served mime es (received q) (names mime q.uri) ≡ (response, used)
      → Reply.IsSendable mime response
      → IsReadable used.body
      → (r : Router (Handler Media)) × (sent reply : Output) × (build es ≡ some r)
        × (Request.write mime buffered q (record { written = []; calls = [] }) ≡ ok sent)
        × (handle_connection mime buffered r
              (suc lines)
              (count_lines (announced q.body q.headers) + fuel)
              (record { unread = sent.written ++ rest; ending = ending })
              (record { written = []; calls = [] })
            ≡ answered (is_connection_persistent q) reply)
        × (Response.read_from mime
              (suc lines)
              (count_lines (announced response.body response.headers) + fuel)
              (record { unread = reply.written ++ after; ending = closing })
            ≡ ok (record response { headers = announced response.body response.headers }))
  unfolding handle_connection serve respond respond_after after_write
  handle_connection-answers es q used response buffered lines fuel rest after ending closing routed
        sendable serves answers readable =
      let (r, built, runs) = run_action-dispatch mime es (received q) routed in
      let (sent, written, read) = read_from-write mime buffered lines fuel q rest ending sendable in
      let (_, reply, replied, back) =
        read_from-write_response mime buffered lines fuel response after closing answers in
      let (_, drained) = read_rest_total used.body readable in
      (
        r,
        sent,
        reply,
        built,
        written,
        rw (read, runs, serves, drained, replied, is_connection_persistent-received q),
        back,
      )

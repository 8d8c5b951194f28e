-- ===== src/Server/Conversation/InOrder.antt =====
-- wruster/src/lib.rs: a conversation of several requests.
use mathlib.Core.List.{append_assoc, append-nil}
use mathlib.Core.Option.{some-injective}
use mathlib.Core.Path.{subst}
use wruster.Base.{
  ℕ, zero, suc, ◌+◌, ◌-◌, ◌≤◌, ◌≡◌, refl, sym, ap, ◌∙◌, true, Option, none, some, List, [], ◌∷◌,
  ◌++◌, Bytes, All, arith, length,
}
use wruster.Http.Body.{Mime, BufWriter}
use wruster.Http.Error.{IoError, ok}
use wruster.Http.Headers.Stream.{count_lines}
use wruster.Http.Io.{Input, read_until, until}
use wruster.Http.Request
use wruster.Http.Request.RoundTrip as Sent
use wruster.Http.Request.{Request, announced, is_connection_persistent}
use wruster.Http.RequestLine
use wruster.Http.RequestLine.{parse_method}
use wruster.Http.Response
use wruster.Http.Response.RoundTrip as Reply
use wruster.Http.Response.{Response}
use wruster.Http.Method
use wruster.Router.Routes.Refine.{IsRoute, build-dispatch}
use wruster.Router.Routes.Spec.{Route, build}
use wruster.Router.Routes.{Router}
use wruster.Server.Conversation.Answer.{
  IsReadable, received, read_rest_total, is_connection_persistent-received,
}
use wruster.Server.Conversation.Dispatch.{names, served, run_action-dispatch}
use wruster.Server.Conversation.{
  Handler, answered, closed, shut_down, run_action, respond, respond_after, after_write,
  after_round, serve, handle_connection, handle_conversation,
}

module _ (mime : Mime) where
  open mime use {Media}

  -- A request with what the reader of its round took from the stream behind it, and how the routes
  -- serve it: the response, and the request as the handler leaves it.
  pub record Exchange : Type 0 where
    pub request : Request Media
    pub behind : Bytes
    pub ending : Option IoError
    pub response : Response Media
    pub used : Request Media

  -- What the reader of each round is given: the bytes of a request that a client wrote, and what was
  -- read behind it; after the last request, the end of the stream.
  abbrev pub inputs : List Exchange → ℕ → Input
  inputs [] k = record { unread = []; ending = none }
  inputs (e ∷ exchanges) zero = record {
    unread = Sent.message_of mime e.request ++ e.behind;
    ending = e.ending;
  }
  inputs (e ∷ exchanges) (suc k) = inputs exchanges k

  -- The bytes of the responses, in their order.
  abbrev pub replies : List Exchange → Bytes
  replies [] = []
  replies (e ∷ exchanges) = Reply.message_of mime e.response ++ replies exchanges

  -- From the responses a client reads the first, and the next ones from what follows it.
  abbrev pub Reads : List Exchange → Type 0
  Reads [] = Unit {0}
  Reads (e ∷ exchanges) =
      ((lines fuel : ℕ) (ending : Option IoError)
        → Response.read_from mime (suc lines)
            (count_lines (announced e.response.body e.response.headers) + fuel)
            (record { unread = replies (e ∷ exchanges); ending = ending })
          ≡ ok (record e.response { headers = announced e.response.body e.response.headers }))
      × Reads exchanges

  module _ (es : List (Route (Handler Media))) (fuel : ℕ) where
    -- The request can be sent and leaves the connection open; the routes serve it with a response that
    -- can be sent, and leave a framed body or none.
    pub record IsAnswered (e : Exchange) : Type 0 where
      pub sendable : Sent.IsSendable mime e.request
      pub stays : is_connection_persistent e.request ≡ true
      pub short : count_lines (announced e.request.body e.request.headers) ≤ fuel
      pub serves :
          served mime es (received mime e.request) (names mime e.request.uri) ≡ (e.response, e.used)
      pub answers : Reply.IsSendable mime e.response
      pub readable : IsReadable mime e.used.body

    module _ (r : Router (Handler Media)) (routed : All IsRoute es) (built : build es ≡ some r)
        (buffered : BufWriter) (lines : ℕ) where
      run_action-served :
          (request : Request Media)
          → run_action mime r request ≡ served mime es request (names mime request.uri)
      run_action-served request =
          let (r', built', runs) = run_action-dispatch mime es request routed in
          let same : r' ≡ r = some-injective _ _ (sym built' ∙ built) in
          subst (λ r. run_action mime r request ≡ served mime es request (names mime request.uri))
            same runs

      read_from-enough :
          (e : Exchange)
          → IsAnswered e
          → Request.read_from mime (suc lines) fuel (inputs (e ∷ []) 0)
            ≡ ok (received mime e.request)
      read_from-enough e v =
          let lines_left = count_lines (announced e.request.body e.request.headers) in
          let enough : lines_left + (fuel - lines_left) ≡ fuel = omega (arith, v.short) in
          subst
            (λ f.
              Request.read_from mime (suc lines) f (inputs (e ∷ []) 0)
              ≡ ok (received mime e.request))
            enough
            (Sent.read_from-message_of mime lines (fuel - lines_left) e.request e.behind e.ending
              v.sendable)

      handle_connection-exchange :
          (e : Exchange) (before : Bytes)
          → IsAnswered e
          → handle_connection mime buffered r
              (suc lines)
              fuel
              (inputs (e ∷ []) 0)
              (record { written = before; calls = [] })
            ≡ answered true
                (record { written = before ++ Reply.message_of mime e.response; calls = [] })
      unfolding handle_connection serve respond respond_after after_write
      handle_connection-exchange e before v =
          let (_, drained) = read_rest_total mime e.used.body v.readable in
          rw (
            read_from-enough e v,
            run_action-served (received mime e.request),
            v.serves,
            drained,
            Reply.write-message_of mime buffered e.response before v.answers,
            is_connection_persistent-received mime e.request,
            v.stays,
          )

      -- The end of the stream ends the conversation.
      last_round :
          (before : Bytes)
          → handle_connection mime buffered r
              (suc lines)
              fuel
              (inputs [] 0)
              (record { written = before; calls = [] })
            ≡ closed (record { written = before; calls = [] })
      unfolding handle_connection serve Request.read_from RequestLine.read_from read_until until
          parse_method
      last_round before = refl

      rounds :
          (exchanges : List Exchange) (k : ℕ) (from : ℕ → Input) (before : Bytes)
          → ((i : ℕ) → from (k + i) ≡ inputs exchanges i)
          → All IsAnswered exchanges
          → handle_conversation mime buffered r
              (suc lines)
              fuel
              from
              (λ i. true)
              (suc (length exchanges))
              k
              (record { written = before; calls = [] })
            ≡ shut_down (some (record { written = before ++ replies exchanges; calls = [] }))
      unfolding handle_conversation after_round
      rounds [] k from before given v =
          let here : from k ≡ inputs [] 0 = ap from (omega arith) ∙ given 0 in
          rw (here, last_round before, append-nil before)
      rounds (e ∷ exchanges) k from before given (v, vs) =
          let here : from k ≡ inputs (e ∷ []) 0 = ap from (omega arith) ∙ given 0 in
          let later : (i : ℕ) → from ((k + 1) + i) ≡ inputs exchanges i =
            λ i. ap from (omega arith) ∙ given (suc i) in
          rw (here, handle_connection-exchange e before v)
            (rounds exchanges (k + 1) from (before ++ Reply.message_of mime e.response) later vs
              ∙ rw (append_assoc before (Reply.message_of mime e.response) (replies exchanges)))

      replies-Reads : (exchanges : List Exchange) → All IsAnswered exchanges → Reads exchanges
      replies-Reads [] v = tt
      replies-Reads (e ∷ exchanges) (v, vs) = (
        λ lines fuel ending.
            Reply.read_from-message_of_response mime lines fuel e.response (replies exchanges)
              ending v.answers,
        replies-Reads exchanges vs,
      )

    -- Routes, each with a non-empty path of bytes, give a router with which a conversation answers
    -- requests in their order, until the stream ends, if each of them can be sent, has no more header
    -- lines than the fuel, leaves the connection open, and is served by the routes with a response that
    -- can be sent, leaving a framed body or none, and if every flush succeeds and the writer takes
    -- everything. What is written is their responses, from which the client reads each of them. The
    -- rounds that are needed are one more than the requests. What a round read ahead behind its
    -- request is not served, whatever it is.
    pub handle_conversation-in_order :
        (buffered : BufWriter) (lines : ℕ) (exchanges : List Exchange)
        → All IsRoute es
        → All IsAnswered exchanges
        → (r : Router (Handler Media)) × (build es ≡ some r)
          × (handle_conversation mime buffered r
                (suc lines)
                fuel
                (inputs exchanges)
                (λ i. true)
                (suc (length exchanges))
                0
                (record { written = []; calls = [] })
              ≡ shut_down (some (record { written = replies exchanges; calls = [] })))
          × Reads exchanges
    handle_conversation-in_order buffered lines exchanges routed v =
        let (r, built, _, _) = build-dispatch es [] Method.get routed in
        (
          r,
          built,
          rounds r routed built buffered lines exchanges 0 (inputs exchanges) []
              (λ i. ap (inputs exchanges) (omega arith)) v,
          replies-Reads r routed built buffered lines exchanges v,
        )

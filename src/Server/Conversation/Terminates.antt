-- ===== src/Server/Conversation/Terminates.antt =====
-- wruster/src/lib.rs: every conversation comes to an end.
use wruster.Base.{
  ℕ, zero, suc, ◌+◌, ◌<◌, ◌≡◌, ◌≢◌, refl, Bool, true, false, Option, none, some, [], Bytes, length,
  arith,
}
use wruster.Http.Body
use wruster.Http.Body.{Mime, BufWriter, Body}
use wruster.Http.Error.Settles.{Settles, Any}
use wruster.Http.Error.{
  ErrorKind, not_connected, IoError, of_kind, HttpResult, ok, err, panic, running, invalid_request,
}
use wruster.Http.Io.{Input, Output, read_until}
use wruster.Http.Request
use wruster.Http.Request.{Request}
use wruster.Http.RequestLine
use wruster.Http.Request.Terminates.{read_from-terminates}
use wruster.Http.Response.Terminates.{response-Settles}
use wruster.Http.Response.{Response}
use wruster.Router.Routes.{Router}
use wruster.Server.Conversation.{
  Handler, Round, answered, closed, broken, panicked, unending, Ending, shut_down, left,
  panicked_end, unending_end, after_write, respond, read_rest, respond_after, serve,
  handle_connection, after_round, handle_conversation, run_action,
}

abbrev RoundEnds : Round → Type 0
RoundEnds unending = ⊥
RoundEnds _ = Unit {0}

abbrev Ends : Ending → Type 0
Ends unending_end = ⊥
Ends _ = Unit {0}

Ends-ne : (e : Ending) → Ends e → e ≢ unending_end
Ends-ne (shut_down to) h = cc
Ends-ne left h = cc
Ends-ne panicked_end h = cc
Ends-ne unending_end h = absurd h

after_round-Ends :
    (flushed : Bool) (round : Round) (next : Output → Ending)
    → RoundEnds round
    → ((to : Output) → Ends (next to))
    → Ends (after_round flushed round next)
unfolding after_round
after_round-Ends flushed panicked next h more = tt
after_round-Ends flushed unending next h more = h
after_round-Ends false (answered stays to) next h more = tt
after_round-Ends true (answered true to) next h more = more to
after_round-Ends true (answered false to) next h more = tt
after_round-Ends false (closed to) next h more = tt
after_round-Ends true (closed to) next h more = tt
after_round-Ends false broken next h more = tt
after_round-Ends true broken next h more = tt

closed-Ends :
    (flushed : Bool) (to : Output) (next : Output → Ending)
    → Ends (after_round flushed (closed to) next)
unfolding after_round
closed-Ends false to next = tt
closed-Ends true to next = tt

module _ (mime : Mime) (buffered : BufWriter)
    (copies : (to : Output) (buf : Bytes) → Settles (buffered.copy to buf) Any) where
  open mime use {Media}

  after_write-Ends :
      (stays : Bool) (m : HttpResult (Response Media × Output))
      → Settles m Any
      → RoundEnds (after_write mime stays m)
  unfolding after_write
  after_write-Ends stays (ok (r, to)) h = tt
  after_write-Ends stays (err e) h = tt
  after_write-Ends stays panic h = tt
  after_write-Ends stays running h = h

  respond-Ends :
      (stays : Bool) (response : Response Media) (to : Output)
      → RoundEnds (respond mime buffered stays response to)
  unfolding respond
  respond-Ends stays response to =
      after_write-Ends stays _ (response-Settles mime buffered copies response to)

  read_rest-Settles : (body : Option (Body Media)) → Settles (read_rest mime body) Any
  unfolding read_rest Body.ensure_read Body.drain
  read_rest-Settles none = tt
  read_rest-Settles (some body) = ground arith

  respond_after-Ends :
      (stays : Bool) (m : HttpResult (Option (Body Media))) (response : Response Media)
      (to : Output)
      → Settles m Any
      → RoundEnds (respond_after mime buffered stays m response to)
  unfolding respond_after
  respond_after-Ends stays (ok b) response to h = respond-Ends stays response to
  respond_after-Ends stays (err e) response to h = tt
  respond_after-Ends stays panic response to h = tt
  respond_after-Ends stays running response to h = h

  module _ (routes : Router (Handler Media)) where
    serve-Ends :
        (to : Output) (m : HttpResult (Request Media))
        → m ≢ running
        → RoundEnds (serve mime buffered routes to m)
    unfolding serve
    serve-Ends to (ok request) h =
        let outcome = run_action mime routes request in
        respond_after-Ends _ _ outcome.0 to (read_rest-Settles outcome.1.body)
    serve-Ends to (err (invalid_request msg)) h = respond-Ends false _ to
    serve-Ends to (err _) h = tt
    serve-Ends to panic h = tt
    serve-Ends to running h = absurd (h refl)

    serve-of_kind :
        (to : Output) (kind : ErrorKind) (message : Bytes)
        → serve mime buffered routes to (err (of_kind kind message)) ≡ closed to
    unfolding serve
    serve-of_kind to not_connected message = refl
    serve-of_kind to _ message = refl

    handle_connection-silent :
        (lines fuel : ℕ) (from : Input) (e : IoError) (to : Output)
        → from.unread ≡ []
        → from.ending ≡ some e
        → handle_connection mime buffered routes lines fuel from to ≡ closed to
    unfolding handle_connection Request.read_from RequestLine.read_from read_until
    handle_connection-silent lines fuel from e to nothing ends =
        rw (nothing, ends) (serve-of_kind to e.kind e.message)

    module _ (lines fuel : ℕ) (from : ℕ → Input) (flushes : ℕ → Bool)
        (ends : (j : ℕ) → (e : IoError) × (from j).ending ≡ some e)
        (enough : (j : ℕ) → length (from j).unread < lines)
        (more : (j : ℕ) → length (from j).unread < fuel) where
      round-Ends :
          (k : ℕ) (to : Output)
          → RoundEnds (handle_connection mime buffered routes lines fuel (from k) to)
      unfolding handle_connection
      round-Ends k to =
          serve-Ends to _ (
            read_from-terminates mime lines fuel (from k) (ends k).0 (enough k) (more k) (ends k).1)

      conversation-Ends :
          (n k m : ℕ) (to : Output)
          → k + n ≡ m
          → (from m).unread ≡ []
          → Ends (handle_conversation mime buffered routes lines fuel from flushes (suc n) k to)
      unfolding handle_conversation
      conversation-Ends zero k m to here nothing =
          let last : k ≡ m = omega (arith, here) in
          let closes =
            handle_connection-silent lines fuel (from k) (ends k).0 to (rw last nothing)
              (ends k).1 in
          rw closes (closed-Ends (flushes k) to _)
      conversation-Ends (suc n) k m to here nothing =
          after_round-Ends (flushes k) _ _ (round-Ends k to)
            (λ to1. conversation-Ends n (k + 1) m to1 (omega (arith, here)) nothing)

      -- A conversation ends, if every round's reader ends in an error, which the time-outs and the
      -- closing of a connection are, and the reader of the round `n` has nothing to give: `n + 1`
      -- rounds are enough, and for the loops that read the headers a fuel above the number of bytes
      -- that a reader gives.
      pub handle_conversation-terminates :
          (n : ℕ) (to : Output)
          → (from n).unread ≡ []
          → handle_conversation mime buffered routes lines fuel from flushes (suc n) 0 to
            ≢ unending_end
      handle_conversation-terminates n to nothing =
          Ends-ne _ (conversation-Ends n 0 n to (omega arith) nothing)

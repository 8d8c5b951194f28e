-- ===== src/Server/Conversation/Refusals.antt =====
-- wruster/src/lib.rs: what a client reads of a server that does not serve its request: all workers are
-- busy, or reading the request fails.
use wruster.Base.{
  ℕ, suc, ◌+◌, ◌≡◌, refl, sym, arith, Bool, true, Option, none, some, [], ◌∷◌, ◌++◌, Bytes, codes,
}
use wruster.Http.Body.{Mime, BufWriter}
use wruster.Http.Chars.{
  contains, is_valid_token_char, is_ascii, is_ascii_alphanumeric, to_ascii_uppercase,
  is_valid_field_content, is_valid_vchar, is_optional_white_space,
}
use wruster.Http.Header.{normalize_header_name, skip_white_space}
use wruster.Http.Error.{
  IoError, HttpError, invalid_request, connection_closed, timeout, unknown, ok, err,
}
use wruster.Http.Headers
use wruster.Http.Header.Line.{IsWritable}
use wruster.Http.Headers.{Headers}
use wruster.Http.Io.{Input, Output}
use wruster.Http.Request
use wruster.Http.Request.{announced}
use wruster.Http.Response
use wruster.Http.Response.RoundTrip.{IsSendable, read_from-write_response}
use wruster.Http.Response.{Response}
use wruster.Http.ResponseLine.RoundTrip.{IsStandard}
use wruster.Http.Status.{StatusCode, bad_request, service_unavailable}
use wruster.Router.Routes.{Router}
use wruster.Server.Conversation.{
  Handler, Ending, shut_down, respond, after_write, serve, after_round, handle_connection,
  handle_conversation, handle_busy,
}

abbrev empty_length : Headers
empty_length = (codes "Content-Length", codes "0" ∷ []) ∷ []

module _ (mime : Mime) where
  open mime use {Media}

  announced_empty :
      (status : StatusCode)
      → announced (Response.from_status mime status).body (Response.from_status mime status).headers
        ≡ empty_length
  unfolding Response.from_status announced Headers.add Headers.new Headers.push_value
  announced_empty status = refl

  empty_length-IsWritable : IsWritable (record { name = codes "Content-Length"; value = codes "0" })
  unfolding is_valid_token_char contains is_ascii is_ascii_alphanumeric normalize_header_name
      skip_white_space to_ascii_uppercase is_valid_field_content is_valid_vchar
      is_optional_white_space
  empty_length-IsWritable = record {
    name_token = ground arith;
    name_ne_nil = ground arith;
    name_normal = refl;
    value_text = ground arith;
    value_starts = refl;
  }

  from_status-IsSendable :
      (status : StatusCode) → IsStandard status → IsSendable mime (Response.from_status mime status)
  unfolding Response.from_status Headers.new Headers.get
  from_status-IsSendable status standard = record {
    standard = standard;
    headers = rw (announced_empty status) (refl, (λ e. cc), (empty_length-IsWritable, tt), tt);
    no_encoding = refl;
    declared = refl;
  }

  -- The response with a status and no body, as a client reads it.
  abbrev pub refusal : StatusCode → Response Media
  refusal status = record { status = status; headers = empty_length; body = none }

  -- A client reads a refusal, whatever follows it.
  abbrev pub IsRefusal : StatusCode → Output → Type 0
  IsRefusal status reply =
      (lines fuel : ℕ) (rest : Bytes) (ending : Option IoError)
      → Response.read_from mime (suc lines) (2 + fuel)
          (record { unread = reply.written ++ rest; ending = ending })
        ≡ ok (refusal status)

  write-IsRefusal :
      (buffered : BufWriter) (status : StatusCode)
      → IsStandard status
      → (after : Response Media) × (reply : Output) × (Response.write mime buffered
            (Response.from_status mime status)
            (record { written = []; calls = [] })
          ≡ ok (after, reply))
        × IsRefusal status reply
  unfolding Response.from_status
  write-IsRefusal buffered status standard =
      let r = Response.from_status mime status in
      let sendable = from_status-IsSendable status standard in
      let (after, reply, written, _) =
        read_from-write_response mime buffered 0 0 r [] none sendable in
      (
        after,
        reply,
        written,
        λ lines fuel rest ending.
            let (_, reply', written', back) =
              read_from-write_response mime buffered lines fuel r rest ending sendable in
            let same : reply' ≡ reply = cc (written, written') in
            rw (sym same) (rw (announced_empty status) at back),
      )

  -- A client of a server without an idle worker reads the status 503 and the length 0, whatever
  -- follows, and the stream is shut down, if it takes what is written.
  pub handle_busy-refuses :
      (buffered : BufWriter)
      → (reply : Output) × (handle_busy mime buffered (record { written = []; calls = [] })
          ≡ shut_down (some reply))
        × IsRefusal service_unavailable reply
  unfolding handle_busy
  handle_busy-refuses buffered =
      let (_, reply, written, reads) =
        write-IsRefusal buffered service_unavailable (λ code e. cc) in
      (reply, rw (written, handle_busy), reads)

  abbrev pub silent : Output
  silent = record { written = []; calls = [] }

  -- How a conversation ends when a request cannot be read.
  abbrev pub IsTurnedAway : HttpError → Ending → Type 0
  IsTurnedAway (invalid_request msg) ending =
      (reply : Output) × (ending ≡ shut_down (some reply)) × IsRefusal bad_request reply
  IsTurnedAway _ ending = ending ≡ shut_down (some silent)

  -- If a request is read with an error and the flush succeeds, the conversation ends there and the
  -- stream is shut down. After an error of the kind InvalidRequest the client reads the status 400 and
  -- the length 0, whatever follows; after any other error nothing is written.
  pub handle_conversation-refuses :
      (buffered : BufWriter) (routes : Router (Handler Media)) (lines fuel : ℕ) (from : ℕ → Input)
      (flushes : ℕ → Bool) (rounds k : ℕ) (e : HttpError)
      → Request.read_from mime lines fuel (from k) ≡ err e
      → flushes k ≡ true
      → IsTurnedAway e
          (handle_conversation mime buffered routes lines fuel from flushes (suc rounds) k silent)
  unfolding handle_conversation handle_connection serve respond after_write after_round
  handle_conversation-refuses buffered routes lines fuel from flushes rounds k (invalid_request msg)
        invalid flushed =
      let (_, reply, written, reads) = write-IsRefusal buffered bad_request (λ code e. cc) in
      (reply, rw (invalid, flushed, written) refl, reads)
  handle_conversation-refuses buffered routes lines fuel from flushes rounds k connection_closed
        failed flushed =
      rw (failed, flushed) refl
  handle_conversation-refuses buffered routes lines fuel from flushes rounds k timeout failed
        flushed =
      rw (failed, flushed) refl
  handle_conversation-refuses buffered routes lines fuel from flushes rounds k (unknown msg) failed
        flushed =
      rw (failed, flushed) refl

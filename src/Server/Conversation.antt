-- ===== src/Server/Conversation.antt =====
-- wruster/src/lib.rs: what a worker does with a connection. Each round reads through a buffer of its
-- own, so what a round's reader is given is a parameter, and what it leaves unread is dropped with
-- it. The handlers are values that take a request and return a response and the request as they
-- leave it.
pub mod Dispatch
pub mod Answer
pub mod Terminates
pub mod Refusals
pub mod InOrder
use wruster.Base.{ℕ, zero, suc, ◌+◌, Bool, true, false, Option, none, some, Bytes, if◌then◌else◌}
use wruster.Http.Body
use wruster.Http.Body.{Mime, BufWriter, Body}
use wruster.Http.Error.{
  Result, HttpError, invalid_request, connection_closed, timeout, unknown, HttpResult, ok, err,
  panic, running,
}
use wruster.Http.Io.{Input, Output}
use wruster.Http.Request
use wruster.Http.Request.{Request, is_connection_persistent}
use wruster.Http.Response
use wruster.Http.Response.{Response}
use wruster.Http.Status
use wruster.Http.Status.{bad_request, internal_server_error, not_found, service_unavailable}
use wruster.Router.Normalize.{normalize}
use wruster.Router.Routes.{Router, get_prefix}

-- `HttpHandler`
abbrev pub Handler : Type 0 → Type 0
Handler Media = Request Media → Response Media × Request Media

-- How a round ends: the response is written and the connection stays open or not; nothing is
-- written and the connection is closed; the response is written in part at most.
pub data Round : Type 0 where
  answered : Bool → Output → Round
  closed : Output → Round
  broken panicked unending : Round

-- How a conversation ends: the stream is shut down, with what was written if that is known; a flush
-- fails, and the worker leaves without a shutdown.
pub data Ending : Type 0 where
  shut_down : Option Output → Ending
  left panicked_end unending_end : Ending

unfoldable pub after_round : Bool → Round → (Output → Ending) → Ending
after_round flushed panicked next = panicked_end
after_round flushed unending next = unending_end
after_round false (answered stays to) next = left
after_round false (closed to) next = left
after_round false broken next = left
after_round true (answered stays to) next = elim stays [
  | true ↦ next to
  | false ↦ shut_down (some to)
]
after_round true (closed to) next = shut_down (some to)
after_round true broken next = shut_down none

module _ (mime : Mime) where
  open mime use {Media}

  unfoldable pub call :
      Request Media → Bytes → Option (Handler Media) → Response Media × Request Media
  call request path none = (Response.from_status mime not_found, request)
  call request path (some action) = action (record request { uri = path })

  unfoldable pub run_normalized :
      Router (Handler Media) → Request Media → Option Bytes → Response Media × Request Media
  run_normalized routes request none = (Response.from_status mime internal_server_error, request)
  run_normalized routes request (some path) =
      call request path (get_prefix routes path request.method)

  -- `run_action`. The path is text, since the text of the request is.
  unfoldable pub run_action :
      Router (Handler Media) → Request Media → Response Media × Request Media
  run_action routes request = run_normalized routes request (normalize request.uri)

  -- The end of the round after a try to write the response.
  unfoldable pub after_write : Bool → HttpResult (Response Media × Output) → Round
  after_write stays (ok (r, to)) = answered stays to
  after_write stays (err e) = broken
  after_write stays panic = panicked
  after_write stays running = unending

  unfoldable pub respond : BufWriter → Bool → Response Media → Output → Round
  respond buffered stays response to = after_write stays (Response.write mime buffered response to)

  -- The rest of the body is read away before the response is written.
  unfoldable pub read_rest : Option (Body Media) → HttpResult (Option (Body Media))
  read_rest none = ok none
  read_rest (some body) = elim (Body.ensure_read mime body) [
    | ok b ↦ ok (some b)
    | err e ↦ err e
    | panic ↦ panic
    | running ↦ running
  ]

  unfoldable pub respond_after :
      BufWriter → Bool → HttpResult (Option (Body Media)) → Response Media → Output → Round
  respond_after buffered stays (ok b) response to = respond buffered stays response to
  respond_after buffered stays (err e) response to = closed to
  respond_after buffered stays panic response to = panicked
  respond_after buffered stays running response to = unending

  unfoldable pub serve :
      BufWriter → Router (Handler Media) → Output → HttpResult (Request Media) → Round
  serve buffered routes to (ok request) =
      let (response, used) = run_action routes request in
      respond_after buffered (is_connection_persistent request) (read_rest used.body) response to
  serve buffered routes to (err (invalid_request msg)) =
      respond buffered false (Response.from_status mime bad_request) to
  serve buffered routes to (err _) = closed to
  serve buffered routes to panic = panicked
  serve buffered routes to running = unending

  -- `handle_connection`; the fuels are those of the loops that read the headers.
  unfoldable pub handle_connection :
      BufWriter → Router (Handler Media) → ℕ → ℕ → Input → Output → Round
  handle_connection buffered routes lines fuel from to =
      serve buffered routes to (Request.read_from mime lines fuel from)

  -- `handle_conversation`, from the round `k` on, with fuel for its rounds: what the reader of each
  -- round is given, and whether the flush after it succeeds, are parameters.
  unfoldable pub handle_conversation :
      BufWriter
      → Router (Handler Media)
      → ℕ
      → ℕ
      → (ℕ → Input)
      → (ℕ → Bool)
      → ℕ
      → ℕ
      → Output
      → Ending
  handle_conversation buffered routes lines fuel from flushes zero k to = unending_end
  handle_conversation buffered routes lines fuel from flushes (suc rounds) k to =
      after_round (flushes k) (handle_connection buffered routes lines fuel (from k) to)
        (handle_conversation buffered routes lines fuel from flushes rounds (k + 1))

  -- `handle_busy`: whether the write or the shutdown fails is only logged.
  unfoldable pub handle_busy : BufWriter → Output → Ending
  handle_busy buffered to =
      elim (Response.write mime buffered (Response.from_status mime service_unavailable) to) [
        | ok (r, sent) ↦ shut_down (some sent)
        | err e ↦ shut_down none
        | panic ↦ panicked_end
        | running ↦ unending_end
      ]

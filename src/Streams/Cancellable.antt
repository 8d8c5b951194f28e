-- ===== src/Streams/Cancellable.antt =====
-- wruster/src/streams/cancellable_stream.rs: `CancellableStream`. The poller, the stream and the flag
-- `done` are shared with other threads, so they are a state that each call moves.
pub mod Reads
pub mod Writes
pub mod Progress
pub mod New
use wruster.Base.{
  ℕ, zero, suc, ◌+◌, ◌-◌, ◌≡◌, ◌≤◌, Bool, true, false, not, ◌&&◌, ◌||◌, Option, none, some, List,
  [], ◌∷◌, ◌++◌, Bytes, ◌==◌, ltb, if◌then◌else◌, length, take, drop, codes,
}
use wruster.Http.Error.{
  ErrorKind, IoError, would_block, timed_out, not_connected, connection_reset, interrupted, Result,
  ok, err, panic, running,
}
use wruster.Http.Io.{IoResult}

pub record Event : Type 0 where
  pub key : ℕ
  pub writable : Bool

-- The poller and the stream of one connection, which is non-blocking. `written` is what the stream
-- took so far: a call of `write_buf` adds the bytes that it counts, and no other call adds any.
pub record Device : Type 1 where
  pub State : Type 0
  pub done : State → Bool
  pub store_done : State → State
  pub written : State → Bytes
  pub modify_readable : State → IoResult (Unit {0}) × State
  pub modify_writable : State → IoResult (Unit {0}) × State
  pub wait : Option ℕ → State → IoResult (List Event) × State
  pub read_buf : ℕ → State → IoResult Bytes × State
  pub write_buf : Bytes → State → IoResult ℕ × State
  pub set_blocking : State → IoResult (Unit {0}) × State
  pub shutdown : State → IoResult (Unit {0}) × State
  pub read_buf-length :
      (n : ℕ) (s : State) (bytes : Bytes) → (read_buf n s).0 ≡ ok bytes → length bytes ≤ n
  pub write_buf-written :
      (buf : Bytes) (s : State) (n : ℕ)
      → (write_buf buf s).0 ≡ ok n
      → (n ≤ length buf) × (written (write_buf buf s).1 ≡ written s ++ take n buf)
  pub write_buf-refused :
      (buf : Bytes) (s : State) (e : IoError)
      → (write_buf buf s).0 ≡ err e
      → written (write_buf buf s).1 ≡ written s
  pub modify_writable-written : (s : State) → written (modify_writable s).1 ≡ written s
  pub wait-written : (d : Option ℕ) (s : State) → written (wait d s).1 ≡ written s

abbrev pub of_error_kind : ErrorKind → Bytes → IoError
of_error_kind kind message = record { kind = kind; message = message }

abbrev pub timed_out_error : IoError
timed_out_error = of_error_kind timed_out (codes "timed out")

abbrev pub not_connected_error : IoError
not_connected_error = of_error_kind not_connected (codes "not connected")

abbrev pub interrupted_error : IoError
interrupted_error = of_error_kind interrupted (codes "operation interrupted")

abbrev pub reset_error : IoError
reset_error = of_error_kind connection_reset (codes "connection reset")

abbrev pub of_read_error : ErrorKind → IoError → IoError
of_read_error would_block e = interrupted_error
of_read_error _ e = e

-- No event within the time-out.
unfoldable pub no_event : Bool → IoError
no_event stop = if stop then not_connected_error else timed_out_error

-- The bytes read, if there are any.
unfoldable pub at_least_one : Bytes → IoResult Bytes
at_least_one [] = err reset_error
at_least_one (c ∷ cs) = ok (c ∷ cs)

module _ (D : Device) where
  open D use {State}

  pub record CancellableStream : Type 0 where
    pub device : State
    pub read_timeout : Option ℕ
    pub write_timeout : Option ℕ

  unfoldable pub set_read_timeout : Option ℕ → CancellableStream → CancellableStream
  set_read_timeout dur t = record t { read_timeout = dur }

  unfoldable pub set_write_timeout : Option ℕ → CancellableStream → CancellableStream
  set_write_timeout dur t = record t { write_timeout = dur }

  unfoldable pub shutdown : CancellableStream → IoResult (Unit {0}) × CancellableStream
  shutdown t =
      let (outcome, s) = D.shutdown (D.store_done t.device) in (outcome, record t { device = s })

  -- The loop of `read_int` over the events, with `read` in the buffer of `n` bytes.
  unfoldable pub read_events : ℕ → Bytes → List Event → State → IoResult Bytes × State
  read_events n read [] s = (at_least_one read, s)
  read_events n read (evt ∷ events) s =
      let skipped = read_events n read events s in
      let (outcome, after) = D.read_buf (n - length read) s in
      if not (evt.key == 1) then skipped else elim outcome [
        | ok bytes ↦
            let more = read_events n (read ++ bytes) events after in
            if length bytes == 0 && D.done after
            then (err not_connected_error, after)
            else if length (read ++ bytes) == n
            then (at_least_one (read ++ bytes), after)
            else more
        | err e ↦ (err (of_read_error e.kind e), after)
        | panic ↦ (panic, after)
        | running ↦ (running, after)
      ]

  unfoldable pub read_woken : ℕ → IoResult (List Event) → State → IoResult Bytes × State
  read_woken n (ok []) s = (err (no_event (D.done s)), s)
  read_woken n (ok (evt ∷ events)) s = read_events n [] (evt ∷ events) s
  read_woken n (err e) s = (err e, s)
  read_woken n panic s = (panic, s)
  read_woken n running s = (running, s)

  unfoldable pub read_ready : ℕ → Option ℕ → IoResult (Unit {0}) → State → IoResult Bytes × State
  read_ready n timeout (ok _) s =
      let (events, after) = D.wait timeout s in read_woken n events after
  read_ready n timeout (err e) s = (err e, s)
  read_ready n timeout panic s = (panic, s)
  read_ready n timeout running s = (running, s)

  -- `CancellableStream::read_int`, into a buffer of `n` bytes
  unfoldable pub read_int : ℕ → CancellableStream → IoResult Bytes × CancellableStream
  read_int n t =
      let (modified, s) = D.modify_readable t.device in
      let (outcome, after) = read_ready n t.read_timeout modified s in
      (outcome, record t { device = after })

  -- After a write that failed, the stream is set to block.
  unfoldable pub write_failed : IoError → IoResult (Unit {0}) × State → IoResult ℕ × State
  write_failed e (ok _, s) = (err e, s)
  write_failed e (err e', s) = (err e', s)
  write_failed e (panic, s) = (panic, s)
  write_failed e (running, s) = (running, s)

  unfoldable pub write_refused : ErrorKind → IoError → State → IoResult ℕ × State
  write_refused would_block e s = (ok 0, s)
  write_refused _ e s = write_failed e (D.set_blocking s)

  -- The loop of `write_int` over the events: the bytes that are written for the first that fits.
  unfoldable pub write_events : Bytes → List Event → State → IoResult ℕ × State
  write_events rest [] s = (ok 0, s)
  write_events rest (evt ∷ events) s =
      let skipped = write_events rest events s in
      let (outcome, after) = D.write_buf rest s in
      if not (evt.key == 1) || not evt.writable then skipped else elim outcome [
        | ok n ↦ (ok n, after)
        | err e ↦ write_refused e.kind e after
        | panic ↦ (panic, after)
        | running ↦ (running, after)
      ]

  unfoldable pub write_woken : Bytes → IoResult (List Event) → State → IoResult ℕ × State
  write_woken rest (ok []) s = (err (no_event (D.done s)), s)
  write_woken rest (ok (evt ∷ events)) s = write_events rest (evt ∷ events) s
  write_woken rest (err e) s = (err e, s)
  write_woken rest panic s = (panic, s)
  write_woken rest running s = (running, s)

  unfoldable pub write_ready : Bytes → Option ℕ → IoResult (Unit {0}) → State → IoResult ℕ × State
  write_ready rest timeout (ok _) s =
      let (events, after) = D.wait timeout s in write_woken rest events after
  write_ready rest timeout (err e) s = (err e, s)
  write_ready rest timeout panic s = (panic, s)
  write_ready rest timeout running s = (running, s)

  -- One round of the outer loop of `write_int`, with what is left of the buffer.
  unfoldable pub write_round : Bytes → Option ℕ → State → IoResult ℕ × State
  write_round rest timeout s =
      let (modified, after) = D.modify_writable s in write_ready rest timeout modified after

  -- while bytes_written < buf_len, with fuel
  unfoldable pub write_rounds : ℕ → Bytes → ℕ → Option ℕ → State → IoResult ℕ × State
  write_rounds zero buf bytes_written timeout s = (running, s)
  write_rounds (suc fuel) buf bytes_written timeout s =
      let (outcome, after) = write_round (drop bytes_written buf) timeout s in
      if not (ltb bytes_written (length buf)) then (ok bytes_written, s) else elim outcome [
        | ok n ↦ write_rounds fuel buf (bytes_written + n) timeout after
        | err e ↦ (err e, after)
        | panic ↦ (panic, after)
        | running ↦ (running, after)
      ]

  -- `CancellableStream::write_int`
  unfoldable pub write_int : ℕ → Bytes → CancellableStream → IoResult ℕ × CancellableStream
  write_int fuel buf t =
      let (outcome, s) = write_rounds fuel buf 0 t.write_timeout t.device in
      (outcome, record t { device = s })

-- ===== src/Streams/Timeout.antt =====
-- wruster/src/streams/timeout_stream.rs: `TimeoutStream` and `Operation`. Durations and instants are
-- in nanoseconds.
pub mod Account
pub mod Limit
pub mod Expiry
use wruster.Base.{
  ℕ, ◌+◌, ◌-◌, ◌*◌, ◌/◌, ◌%◌, ◌^◌, Option, none, some, Bytes, ◌==◌, leb, if◌then◌else◌, codes,
}
use wruster.Http.Error.{
  ErrorKind, IoError, would_block, timed_out, Result, ok, err, panic, running, map_err,
}
use wruster.Http.Io.{IoResult}

-- `Read + Write + Timeout`: each call gives its outcome and the stream as it is afterwards. The
-- clock is part of the stream: a call moves it by the time that it takes.
pub record Stream : Type 1 where
  pub State : Type 0
  pub now : State → ℕ
  pub set_read_timeout : State → Option ℕ → IoResult (Unit {0}) × State
  pub set_write_timeout : State → Option ℕ → IoResult (Unit {0}) × State
  pub read : State → ℕ → IoResult Bytes × State
  pub write : State → Bytes → IoResult ℕ × State
  pub flush : State → IoResult (Unit {0}) × State

abbrev pub second : ℕ
second = 1000000000

abbrev pub as_secs : ℕ → ℕ
as_secs d = d / second

pub record Operation : Type 0 where
  pub timeout : ℕ
  pub started : Option ℕ
  pub elapsed_secs : ℕ

-- `Operation::from_timeout`
unfoldable pub from_timeout : ℕ → Operation
from_timeout timeout = record { timeout = timeout; started = none; elapsed_secs = 0 }

-- `Operation::next_timeout`
unfoldable pub next_timeout : Operation → ℕ
next_timeout op =
    if leb (as_secs op.timeout) op.elapsed_secs
    then 0 * second
    else (as_secs op.timeout - op.elapsed_secs) * second

-- `Operation::start`, at an instant
unfoldable pub start : ℕ → Operation → Operation
start now op = record op { started = some now }

-- `Operation::stop`, at an instant; a u64 counts the seconds.
unfoldable pub stop : ℕ → Operation → Operation
stop now op = elim op.started [
  | none ↦ op
  | some started ↦ record op { elapsed_secs = (op.elapsed_secs + as_secs (now - started)) % 2 ^ 64 }
]

abbrev pub timed_out_error : IoError
timed_out_error = record { kind = timed_out; message = codes "timed out" }

abbrev pub of_would_block : ErrorKind → IoError → IoError
of_would_block would_block e = timed_out_error
of_would_block _ e = e

-- WouldBlock is returned as TimedOut.
unfoldable pub convert : IoError → IoError
convert e = of_would_block e.kind e

unfoldable pub ongoing : ℕ → Option Operation → Operation
ongoing timeout none = from_timeout timeout
ongoing timeout (some op) = op

module _ (S : Stream) where
  open S use {State, now}

  pub record TimeoutStream : Type 0 where
    pub stream : State
    pub read_timeout : Option ℕ
    pub write_timeout : Option ℕ
    pub ongoing_read : Option Operation
    pub ongoing_write : Option Operation

  -- `TimeoutStream::from`
  unfoldable pub from : State → Option ℕ → Option ℕ → TimeoutStream
  from stream read_timeout write_timeout = record {
    stream = stream;
    read_timeout = read_timeout;
    write_timeout = write_timeout;
    ongoing_read = none;
    ongoing_write = none;
  }

  -- The call itself, between the start and the stop of the operation.
  unfoldable pub measured {ℓ} :
      {A : Type ℓ}
      → (State → IoResult A × State)
      → Operation
      → State
      → IoResult A × State × Operation
  measured call op s =
      let (outcome, after) = call s in
      (map_err convert outcome, after, stop (now after) (start (now s) op))

  -- Behind the setting of the time-out of the call.
  unfoldable pub after_set {ℓ} :
      {A : Type ℓ}
      → (State → IoResult A × State)
      → Operation
      → IoResult (Unit {0})
      → State
      → IoResult A × State × Operation
  after_set call op (ok _) s = measured call op s
  after_set call op (err e) s = (err e, s, op)
  after_set call op panic s = (panic, s, op)
  after_set call op running s = (running, s, op)

  -- What `read` and `write` do with an operation: set the time that is left, and call.
  unfoldable pub limited {ℓ} :
      {A : Type ℓ}
      → (State → Option ℕ → IoResult (Unit {0}) × State)
      → (State → IoResult A × State)
      → Operation
      → State
      → IoResult A × State × Operation
  limited set call op s =
      if as_secs (next_timeout op) == 0
      then (err timed_out_error, s, op)
      else let (outcome, after) = set s (some (next_timeout op)) in after_set call op outcome after

  -- `Read for TimeoutStream`, into a buffer of `n` bytes
  unfoldable pub read : ℕ → TimeoutStream → IoResult Bytes × TimeoutStream
  read n t = elim t.read_timeout [
    | none ↦ let (outcome, s) = S.read t.stream n in (outcome, record t { stream = s })
    | some timeout ↦
        let (outcome, s, op) =
          limited S.set_read_timeout (λ s. S.read s n) (ongoing timeout t.ongoing_read) t.stream in
        (outcome, record t { stream = s; ongoing_read = some op })
  ]

  -- `Write for TimeoutStream`
  unfoldable pub write : Bytes → TimeoutStream → IoResult ℕ × TimeoutStream
  write buf t = elim t.write_timeout [
    | none ↦ let (outcome, s) = S.write t.stream buf in (outcome, record t { stream = s })
    | some timeout ↦
        let (outcome, s, op) =
          limited S.set_write_timeout (λ s. S.write s buf) (ongoing timeout t.ongoing_write)
            t.stream in
        (outcome, record t { stream = s; ongoing_write = some op })
  ]

  unfoldable pub flush : TimeoutStream → IoResult (Unit {0}) × TimeoutStream
  flush t = let (outcome, s) = S.flush t.stream in (outcome, record t { stream = s })

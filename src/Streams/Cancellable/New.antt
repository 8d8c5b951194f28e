-- ===== src/Streams/Cancellable/New.antt =====
-- wruster/src/streams/cancellable_stream.rs: a `CancellableStream` from a stream and a poller, the
-- crate polling, which is a parameter. While a poller waits, other threads may move all that the
-- stream shares with them.
use wruster.Base.{ℕ, ◌≡◌, refl, Bool, true, false, Option, none, List}
use wruster.Http.Error.{ok, err, panic, running, ◌>>=◌}
use wruster.Http.Io.{IoResult}
use wruster.Streams.Base.{Action, BaseStream}
use wruster.Streams.Cancellable.{Event, Device, CancellableStream}

-- Which events of a source a poller waits for.
pub data Interest : Type 0 where
  all readable writable : Interest

-- The stream, the poller and the flag.
pub record Shared (S P : Type 0) : Type 0 where
  pub stream : S
  pub poller : P
  pub done : Bool

-- `polling::Poller`
pub record Polling (B : BaseStream) : Type 1 where
  pub Poller : Type 0
  pub create : IoResult Poller
  pub add : ℕ → Interest → ℕ → Action Poller (Unit {0})
  pub modify : ℕ → Interest → ℕ → Action Poller (Unit {0})
  pub wait : Option ℕ → Action (Shared B.State Poller) (List Event)
  pub wait-written :
      (d : Option ℕ) (s : Shared B.State Poller)
      → B.written (wait d s).1.stream ≡ B.written s.stream

module _ (B : BaseStream) (P : Polling B) where
  open P use {Poller}

  abbrev Parts : Type 0
  Parts = Shared B.State Poller

  abbrev on_stream {ℓ} :
      {A : Type ℓ} → (B.State → IoResult A × B.State) → Parts → IoResult A × Parts
  on_stream f s = let (outcome, t) = f s.stream in (outcome, record s { stream = t })

  abbrev modified : Interest → Action Parts (Unit {0})
  modified interest s =
      let (outcome, p) = P.modify (B.as_raw s.stream) interest 1 s.poller in
      (outcome, record s { poller = p })

  -- What `read_int` and `write_int` use of the stream and the poller.
  abbrev pub device : Device
  device = record {
    State = Parts;
    done = λ s. s.done;
    store_done = λ s. record s { done = true };
    written = λ s. B.written s.stream;
    modify_readable = modified readable;
    modify_writable = modified writable;
    wait = P.wait;
    read_buf = λ n. on_stream (B.read_buf n);
    write_buf = λ buf. on_stream (B.write_buf buf);
    set_blocking = on_stream (B.set_nonblocking false);
    shutdown = on_stream B.shutdown;
    read_buf-length = λ n s. B.read_buf-length n s.stream;
    write_buf-written = λ buf s. B.write_buf-written buf s.stream;
    write_buf-refused = λ buf s. B.write_buf-refused buf s.stream;
    modify_writable-written = λ s. refl;
    wait-written = P.wait-written;
  }

  unfoldable pub added :
      B.State → IoResult (Unit {0}) × Poller → IoResult (CancellableStream device)
  added stream (ok _, poller) = ok (record {
    device = record { stream = stream; poller = poller; done = false };
    read_timeout = none;
    write_timeout = none;
  })
  added stream (err e, poller) = err e
  added stream (panic, poller) = panic
  added stream (running, poller) = running

  unfoldable pub unblocked :
      Poller → IoResult (Unit {0}) × B.State → IoResult (CancellableStream device)
  unblocked poller (ok _, stream) = added stream (P.add (B.as_raw stream) all 1 poller)
  unblocked poller (err e, stream) = err e
  unblocked poller (panic, stream) = panic
  unblocked poller (running, stream) = running

  -- `CancellableStream::new`
  unfoldable pub new : B.State → IoResult (CancellableStream device)
  new stream = P.create >>= λ poller. unblocked poller (B.set_nonblocking true stream)

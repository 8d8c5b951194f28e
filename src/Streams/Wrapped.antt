-- ===== src/Streams/Wrapped.antt =====
-- wruster/src/streams/observable.rs and timeout_stream.rs: the stream that the server reads from, a
-- `TimeoutStream` of an observed `CancellableStream`. The observed stream forwards each call.
use wruster.Base.{
  ℕ, ◌≡◌, ◌≢◌, ◌≤◌, some, [], Bytes, length, Bool-cases, Option-cases, inl, inr, ◌==◌,
}
use wruster.Http.Error.{ok, map_err-eq-ok}
use wruster.Http.Io.{IoResult}
use wruster.Streams.Cancellable.Reads.{read_int-Fits}
use wruster.Streams.Cancellable.{
  Device, CancellableStream, read_int, write_int, set_read_timeout, set_write_timeout,
}
use wruster.Streams.Timeout
use wruster.Streams.Timeout.{
  Stream, TimeoutStream, Operation, as_secs, next_timeout, convert, measured, after_set, limited,
  ongoing,
}

-- `Read`, `Write` and `Timeout` for `ObservedStream`, with the clock and the flush of the device, and
-- fuel for the loop of a write.
abbrev pub observed :
    (D : Device) → (D.State → ℕ) → (D.State → IoResult (Unit {0}) × D.State) → ℕ → Stream
observed D now flush_data fuel = record {
  State = CancellableStream D;
  now = λ t. now t.device;
  set_read_timeout = λ t d. (ok tt, set_read_timeout D d t);
  set_write_timeout = λ t d. (ok tt, set_write_timeout D d t);
  read = λ t n. read_int D n t;
  write = λ t buf. write_int D fuel buf t;
  flush = λ t. let (outcome, s) = flush_data t.device in (outcome, record t { device = s });
}

module _ (D : Device) (now : D.State → ℕ) (flush_data : D.State → IoResult (Unit {0}) × D.State)
    (fuel : ℕ) where
  abbrev S : Stream
  S = observed D now flush_data fuel

  limited-read :
      (n : ℕ) (op : Operation) (s : CancellableStream D) (bytes : Bytes)
      → (limited S S.set_read_timeout (λ s. S.read s n) op s).0 ≡ ok bytes
      → (bytes ≢ []) × (length bytes ≤ n)
  unfolding limited after_set measured
  limited-read n op s bytes got = elim (Bool-cases (as_secs (next_timeout op) == 0)) [
    | inl over ↦ cc (rw over at got)
    | inr left ↦
        let set = set_read_timeout D (some (next_timeout op)) s in
        let inner : (read_int D n set).0 ≡ ok bytes =
          map_err-eq-ok convert (read_int D n set).0 (rw left at got) in
        read_int-Fits D n set bytes inner
  ]

  -- A read of the server's stream that succeeds gives at least one byte and no more than fit, with a
  -- time-out and without one: the end of the connection is an error for what reads a request.
  pub read-Fits :
      (n : ℕ) (t : TimeoutStream S) (bytes : Bytes)
      → (Timeout.read S n t).0 ≡ ok bytes
      → (bytes ≢ []) × (length bytes ≤ n)
  unfolding Timeout.read
  read-Fits n t bytes got = elim (Option-cases t.read_timeout) [
    | inl unlimited ↦ read_int-Fits D n t.stream bytes (rw unlimited at got)
    | inr (timeout, limit) ↦
        limited-read n (ongoing timeout t.ongoing_read) t.stream bytes (rw limit at got)
  ]

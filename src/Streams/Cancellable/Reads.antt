-- ===== src/Streams/Cancellable/Reads.antt =====
-- wruster/src/streams/cancellable_stream.rs: what a read gives.
use wruster.Base.{
  ℕ, ◌-◌, ◌≡◌, ◌≢◌, ◌≤◌, ◌&&◌, Option, List, [], ◌∷◌, ◌++◌, Bytes, ◌==◌, length, length-append,
  arith, Bool-cases, inl, inr,
}
use wruster.Http.Error.{
  ok, err, panic, running, Result-cases, was_ok, was_err, was_panic, was_running,
}
use wruster.Http.Io.{IoResult}
use wruster.Streams.Cancellable.{
  Device, Event, CancellableStream, at_least_one, read_events, read_woken, read_ready, read_int,
}

-- Some bytes, and no more than fit, or a failure that is no panic of the source.
abbrev Fits : ℕ → IoResult Bytes → Type 0
Fits n (ok bytes) = (bytes ≢ []) × (length bytes ≤ n)
Fits n _ = Unit {0}

at_least_one-Fits : (n : ℕ) (read : Bytes) → length read ≤ n → Fits n (at_least_one read)
unfolding at_least_one
at_least_one-Fits n [] h = tt
at_least_one-Fits n (c ∷ read) h = (λ e. cc e, h)

module _ (D : Device) where
  open D use {State}

  read_events-Fits :
      (n : ℕ) (read : Bytes) (events : List Event) (s : State)
      → length read ≤ n
      → Fits n (read_events D n read events s).0
  unfolding read_events
  read_events-Fits n read [] s h = at_least_one-Fits n read h
  read_events-Fits n read (evt ∷ events) s h = elim (Bool-cases (evt.key == 1)) [
    | inr other ↦ rw other (read_events-Fits n read events s h)
    | inl ours ↦ rw ours (elim (Result-cases (D.read_buf (n - length read) s).0) [
      | was_err e failed ↦ rw failed tt
      | was_panic failed ↦ rw failed tt
      | was_running failed ↦ rw failed tt
      | was_ok bytes got ↦
          let after = (D.read_buf (n - length read) s).1 in
          let few = D.read_buf-length (n - length read) s bytes got in
          let fits : length (read ++ bytes) ≤ n = omega (arith, h, few, length-append read bytes) in
          rw got (elim (Bool-cases (length bytes == 0 && D.done after)) [
            | inl stopped ↦ rw stopped tt
            | inr went ↦ rw went (elim (Bool-cases (length (read ++ bytes) == n)) [
              | inl full ↦ rw full (at_least_one-Fits n (read ++ bytes) fits)
              | inr room ↦ rw room (read_events-Fits n (read ++ bytes) events after fits)
            ])
          ])
    ])
  ]

  read_woken-Fits :
      (n : ℕ) (woken : IoResult (List Event)) (s : State) → Fits n (read_woken D n woken s).0
  unfolding read_woken
  read_woken-Fits n (ok []) s = tt
  read_woken-Fits n (ok (evt ∷ events)) s = read_events-Fits n [] (evt ∷ events) s (omega arith)
  read_woken-Fits n (err e) s = tt
  read_woken-Fits n panic s = tt
  read_woken-Fits n running s = tt

  read_ready-Fits :
      (n : ℕ) (timeout : Option ℕ) (modified : IoResult (Unit {0})) (s : State)
      → Fits n (read_ready D n timeout modified s).0
  unfolding read_ready
  read_ready-Fits n timeout (ok _) s = read_woken-Fits n (D.wait timeout s).0 (D.wait timeout s).1
  read_ready-Fits n timeout (err e) s = tt
  read_ready-Fits n timeout panic s = tt
  read_ready-Fits n timeout running s = tt

  -- A read that succeeds gives at least one byte, and no more than fit into the buffer: the end of
  -- the stream is an error, so that nobody who reads on waits for bytes that do not come.
  pub read_int-Fits :
      (n : ℕ) (t : CancellableStream D) (bytes : Bytes)
      → (read_int D n t).0 ≡ ok bytes
      → (bytes ≢ []) × (length bytes ≤ n)
  unfolding read_int
  read_int-Fits n t bytes got =
      let modified = D.modify_readable t.device in
      rw got at (read_ready-Fits n t.read_timeout modified.0 modified.1)

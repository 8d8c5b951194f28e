-- ===== src/Streams/Timeout/Expiry.antt =====
-- wruster/src/streams/timeout_stream.rs: when a read is refused for the time that was taken, and when
-- it never is.
use wruster.Base.{
  ℕ, ◌+◌, ◌-◌, ◌*◌, ◌^◌, ◌<◌, ◌≤◌, ◌≡◌, ◌∙◌, refl, true, Option, some, List, [], ◌∷◌, arith, ◌==◌,
  leb, Bool-cases, inl, inr,
}
use wruster.Http.Error.{ok, err, panic, running}
use wruster.Http.Io.{IoResult}
use wruster.Streams.Timeout.Limit.{current, reads, read-stays}
use wruster.Streams.Timeout.{
  Stream, TimeoutStream, Operation, second, as_secs, from, from_timeout, next_timeout, start, stop,
  ongoing, measured, after_set, limited, read, timed_out_error,
}

-- The operation has counted all the seconds of its time-out.
abbrev pub IsExpired : Operation → Type 0
IsExpired op = as_secs op.timeout ≤ op.elapsed_secs

module _ (S : Stream) where
  open S use {State, now}

  limited-expired {ℓ} :
      {A : Type ℓ} (set : State → Option ℕ → IoResult (Unit {0}) × State)
      (call : State → IoResult A × State) (op : Operation) (s : State)
      → IsExpired op
      → limited S set call op s ≡ (err timed_out_error, s, op)
  unfolding limited next_timeout
  limited-expired set call op s expired =
      let over : leb (as_secs op.timeout) op.elapsed_secs ≡ true = ground (arith, expired) in
      rw over

  -- An expired operation refuses the read as timed out: the stream is not touched, and the operation
  -- stays expired, so that the reads after it are refused as well.
  pub read-IsExpired :
      (timeout n : ℕ) (t : TimeoutStream S)
      → t.read_timeout ≡ some timeout
      → IsExpired (current S timeout t)
      → ((read S n t).0 ≡ err timed_out_error)
        × ((read S n t).1.stream ≡ t.stream)
        × IsExpired (current S timeout (read S n t).1)
  unfolding read
  read-IsExpired timeout n t limit expired =
      let refused =
        limited-expired S.set_read_timeout (λ s. S.read s n) (current S timeout t) t.stream
          expired in
      (
        rw (limit, refused),
        rw (limit, refused),
        rw ((read-stays S timeout n t limit).1, refused) expired,
      )

  -- A call that takes less than a second counts nothing.
  measured-subsecond {ℓ} :
      {A : Type ℓ} (call : State → IoResult A × State) (op : Operation) (s : State)
      → op.elapsed_secs < 2 ^ 64
      → now (call s).1 < now s + second
      → (measured S call op s).2.elapsed_secs ≡ op.elapsed_secs
  unfolding measured start stop
  measured-subsecond call op s small quick =
      let none_counted : as_secs (now (call s).1 - now s) ≡ 0 = omega (arith, quick) in
      rw none_counted (omega (arith, small))

  after_set-subsecond {ℓ} :
      {A : Type ℓ} (call : State → IoResult A × State) (op : Operation)
      (outcome : IoResult (Unit {0})) (s : State)
      → op.elapsed_secs < 2 ^ 64
      → now (call s).1 < now s + second
      → ((after_set S call op outcome s).2.elapsed_secs ≡ op.elapsed_secs)
        × ((after_set S call op outcome s).2.timeout ≡ op.timeout)
  unfolding after_set
  after_set-subsecond call op (ok _) s small quick =
      (measured-subsecond call op s small quick, unfold measured start stop in refl)
  after_set-subsecond call op (err e) s small quick = (refl, refl)
  after_set-subsecond call op panic s small quick = (refl, refl)
  after_set-subsecond call op running s small quick = (refl, refl)

  -- Every read of the stream takes less than a second.
  abbrev pub IsQuick : Type 0
  IsQuick = (n : ℕ) (s : State) → now (S.read s n).1 < now s + second

  -- Nothing is counted.
  abbrev IsFresh : ℕ → Operation → Type 0
  IsFresh timeout op = (op.elapsed_secs ≡ 0) × (op.timeout ≡ timeout)

  limited-IsFresh :
      (timeout n : ℕ) (op : Operation) (s : State)
      → IsQuick
      → IsFresh timeout op
      → IsFresh timeout (limited S S.set_read_timeout (λ s. S.read s n) op s).2
  unfolding limited
  limited-IsFresh timeout n op s quick fresh = elim (Bool-cases (as_secs (next_timeout op) == 0)) [
    | inl over ↦ rw over fresh
    | inr left ↦
        let set = S.set_read_timeout s (some (next_timeout op)) in
        let same =
          after_set-subsecond (λ s. S.read s n) op set.0 set.1 (omega (arith, fresh.0))
            (quick n set.1) in
        rw left (same.0 ∙ fresh.0, same.1 ∙ fresh.1)
  ]

  reads-IsFresh :
      (timeout : ℕ) (ns : List ℕ) (t : TimeoutStream S)
      → IsQuick
      → t.read_timeout ≡ some timeout
      → IsFresh timeout (current S timeout t)
      → IsFresh timeout (current S timeout (reads S ns t))
  reads-IsFresh timeout [] t quick limit fresh = fresh
  reads-IsFresh timeout (n ∷ ns) t quick limit fresh =
      let (stays, next) = read-stays S timeout n t limit in
      reads-IsFresh timeout ns (read S n t).1 quick stays
        (rw next (limited-IsFresh timeout n (current S timeout t) t.stream quick fresh))

  -- However many reads a stream has served, if each of them took less than a second, then the time
  -- that is set for the next one is still the whole seconds of the time-out.
  pub reads-IsQuick :
      (timeout : ℕ) (ns : List ℕ) (stream : State) (write_timeout : Option ℕ)
      → IsQuick
      → next_timeout (current S timeout (reads S ns (from S stream (some timeout) write_timeout)))
        ≡ as_secs timeout * second
  unfolding next_timeout
  reads-IsQuick timeout ns stream write_timeout quick =
      let fresh : IsFresh timeout (current S timeout (from S stream (some timeout) write_timeout)) =
        unfold from ongoing from_timeout in (refl, refl) in
      let last =
        reads-IsFresh timeout ns (from S stream (some timeout) write_timeout) quick
          (unfold from in refl) fresh in
      rw (last.1, last.0) (ground arith)

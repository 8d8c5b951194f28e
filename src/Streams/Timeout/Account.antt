-- ===== src/Streams/Timeout/Account.antt =====
-- wruster/src/streams/timeout_stream.rs: the time that an operation counts.
use wruster.Base.{
  ℕ, ◌+◌, ◌-◌, ◌*◌, ◌%◌, ◌^◌, ◌<◌, ◌≤◌, ◌≡◌, refl, Option, some, arith, ◌==◌, if◌then◌else◌,
  Bool-cases, inl, inr,
}
use wruster.Http.Error.{ok, err, panic, running}
use wruster.Http.Io.{IoResult}
use wruster.Streams.Timeout.{
  Stream, Operation, second, as_secs, next_timeout, start, stop, measured, after_set, limited,
}

div_le : (d r : ℕ) → d ≤ r * second → as_secs d ≤ r
div_le d r h = omega (arith, h)

div_gt : (d : ℕ) → d ≤ as_secs d * second + second
div_gt d = omega arith

mod_small : (n : ℕ) → n < 2 ^ 64 → n % 2 ^ 64 ≡ n
mod_small n h = omega (arith, h)

next_timeout-left :
    (op : Operation) → next_timeout op ≤ (as_secs op.timeout - op.elapsed_secs) * second
unfolding next_timeout
next_timeout-left op = ground arith

module _ (S : Stream) where
  open S use {State, now}

  -- The operation that a call leaves, when it took the time `d`.
  pub record Accounted (before : Operation) (d : ℕ) (after : Operation) : Type 0 where
    pub same : after.timeout ≡ before.timeout
    pub within : after.elapsed_secs ≤ as_secs after.timeout
    pub counted : d + before.elapsed_secs * second ≤ after.elapsed_secs * second + second

  module _ {ℓ} {A : Type ℓ} (call : State → IoResult A × State) where
    -- The time that the call takes, behind the setting of its time-out.
    abbrev pub time_behind : IoResult (Unit {0}) → State → ℕ
    time_behind (ok _) s = now (call s).1 - now s
    time_behind _ s = 0

    abbrev pub time_in : (State → Option ℕ → IoResult (Unit {0}) × State) → Operation → State → ℕ
    time_in set op s =
        if as_secs (next_timeout op) == 0
        then 0
        else time_behind (set s (some (next_timeout op))).0 (set s (some (next_timeout op))).1

    measured-Accounted :
        (op : Operation) (s : State)
        → op.timeout < 2 ^ 64 * second
        → op.elapsed_secs ≤ as_secs op.timeout
        → now (call s).1 ≤ now s + next_timeout op
        → Accounted op (now (call s).1 - now s) (measured S call op s).2
    unfolding measured stop start
    measured-Accounted op s small within punctual =
        let d = now (call s).1 - now s in
        let left : d ≤ (as_secs op.timeout - op.elapsed_secs) * second =
          omega (arith, punctual, next_timeout-left op) in
        let few : as_secs d ≤ as_secs op.timeout - op.elapsed_secs =
          div_le d (as_secs op.timeout - op.elapsed_secs) left in
        let secs : as_secs op.timeout < 2 ^ 64 = omega (arith, small) in
        let sum = mod_small (op.elapsed_secs + as_secs d) (omega (arith, few, secs, within)) in
        record {
          same = refl;
          within = rw sum (omega (arith, few, within));
          counted = rw sum (omega (arith, div_gt d));
        }

    -- Nothing was called.
    idle-Accounted : (op : Operation) → op.elapsed_secs ≤ as_secs op.timeout → Accounted op 0 op
    idle-Accounted op within = record { same = refl; within = within; counted = omega arith }

    after_set-Accounted :
        (op : Operation) (outcome : IoResult (Unit {0})) (s : State)
        → op.timeout < 2 ^ 64 * second
        → op.elapsed_secs ≤ as_secs op.timeout
        → (outcome ≡ ok tt → now (call s).1 ≤ now s + next_timeout op)
        → Accounted op (time_behind outcome s) (after_set S call op outcome s).2
    unfolding after_set
    after_set-Accounted op (ok tt) s small within punctual =
        measured-Accounted op s small within (punctual refl)
    after_set-Accounted op (err e) s small within punctual = idle-Accounted op within
    after_set-Accounted op panic s small within punctual = idle-Accounted op within
    after_set-Accounted op running s small within punctual = idle-Accounted op within

    pub limited-Accounted :
        (set : State → Option ℕ → IoResult (Unit {0}) × State) (op : Operation) (s : State)
        → op.timeout < 2 ^ 64 * second
        → op.elapsed_secs ≤ as_secs op.timeout
        → ((s : State) (d : ℕ)
            → (set s (some d)).0 ≡ ok tt
            → now (call (set s (some d)).1).1 ≤ now (set s (some d)).1 + d)
        → Accounted op (time_in set op s) (limited S set call op s).2
    unfolding limited
    limited-Accounted set op s small within punctual =
        elim (Bool-cases (as_secs (next_timeout op) == 0)) [
          | inl over ↦ rw over (idle-Accounted op within)
          | inr left ↦
              let outcome = set s (some (next_timeout op)) in
              rw left (
                after_set-Accounted op outcome.0 outcome.1 small within
                  (punctual s (next_timeout op)))
        ]

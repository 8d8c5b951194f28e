-- ===== src/ThreadPool/Static/Rotation.antt =====
-- One `run` of the static pool tries the workers in turn, from the next one, and takes the first
-- that waits.
use native.Mathlib.Nat.{
  max-eq_right, mod-eq_of_lt, mod-lt, mod-add-mod, mod-eq-sub-mod, mod-one, add-mod_right,
}
use mathlib.Core.Path.{subst}
use wruster.Base.{
  ℕ, zero, suc, ◌+◌, ◌-◌, ◌%◌, ◌<◌, ◌≤◌, ◌≡◌, ◌≢◌, refl, ap, ◌∙◌, ◌⊎◌, inl, inr, true, false, ◌==◌,
  leb, arith, Bool-cases, leb→le,
}
use Prim.Native.Nat.{max}
use wruster.ThreadPool.Static.{
  Static, Sent, taken, full, disconnected, Outcome, ran, refused, panicked, running, Tries,
  run_loop, advance, run, after_try,
}

-- The worker of try `k`.
abbrev pub nth_worker : Static → ℕ → ℕ
nth_worker s k = (s.next + k) % s.size

-- The first try among `k`, `k + 1`, … of `n` that does not find its worker busy.
unfoldable pub first_free : ℕ → Tries → Static → ℕ → Outcome
first_free zero sent s k = refused
first_free (suc n) sent s k =
    let later = first_free n sent s (k + 1) in
    after_try (nth_worker s k) later (sent k (nth_worker s k))

pub Sent-cases : (x : Sent) → (x ≡ full) ⊎ ((x ≡ taken) ⊎ (x ≡ disconnected))
Sent-cases full = inl refl
Sent-cases taken = inr (inl refl)
Sent-cases disconnected = inr (inr refl)

-- Each worker is tried once; a single one is tried twice.
abbrev pub tries : Static → ℕ
tries s = max 2 s.size

abbrev pub IsValid : Static → Type 0
IsValid s = s.next < s.size

mod_ap : (a b n : ℕ) → a ≡ b → a % n ≡ b % n
mod_ap a b n e = ap (λ c. c % n) e

mod_less : (a n : ℕ) → a < n → a % n ≡ a
mod_less a n h = mod-eq_of_lt h

mod_wrap : (a n : ℕ) → n ≤ a → a - n < n → a % n ≡ a - n
mod_wrap a n h k = mod-eq-sub-mod h ∙ mod-eq_of_lt k

nth_worker-suc : (s : Static) (k : ℕ) → (nth_worker s k + 1) % s.size ≡ nth_worker s (k + 1)
nth_worker-suc s k =
    mod-add-mod (s.next + k) s.size 1
    ∙ mod_ap (s.next + k + 1) (s.next + (k + 1)) s.size (omega arith)

nth_worker_size : (s : Static) → IsValid s → nth_worker s s.size ≡ s.next
nth_worker_size s v = add-mod_right s.next s.size ∙ mod-eq_of_lt v

nth_worker_single : (s : Static) → s.size ≡ 1 → (k : ℕ) → nth_worker s k ≡ 0
nth_worker_single s e k = rw e (mod-one (s.next + k))

zero_next : (s : Static) → IsValid s → s.size ≡ 1 → 0 ≡ s.next
zero_next s v e = omega arith

nth_worker_last : (s : Static) → IsValid s → nth_worker s (tries s) ≡ s.next
nth_worker_last s v = elim (Bool-cases (leb 2 s.size)) [
  | inl large ↦ ap (nth_worker s) (max-eq_right (leb→le 2 s.size large)) ∙ nth_worker_size s v
  | inr small ↦ nth_worker_single s (ground arith) (tries s) ∙ zero_next s v (ground arith)
]

nth_worker_before : (s : Static) (k : ℕ) → IsValid s → 0 < k → k < s.size → nth_worker s k ≢ s.next
nth_worker_before s k v pos h e = elim (Bool-cases (leb s.size (s.next + k))) [
  | inl wraps ↦ ground (arith, mod_wrap (s.next + k) s.size)
  | inr below ↦ ground (arith, mod_less (s.next + k) s.size)
]

==_refl : (a : ℕ) → (a == a) ≡ true
==_refl a = ground arith

==_ne : (a b : ℕ) → a ≢ b → (a == b) ≡ false
==_ne a b h = ground arith

run_loop-first_free :
    (fuel n : ℕ) (sent : Tries) (s : Static) (k : ℕ)
    → IsValid s
    → 0 < k
    → k + suc n ≡ tries s
    → n < fuel
    → run_loop fuel sent s k (nth_worker s k) ≡ first_free (suc n) sent s k
unfolding run_loop first_free after_try
run_loop-first_free zero n sent s k v pos e h = elim h [ ]
run_loop-first_free (suc fuel) zero sent s k v pos e h =
    elim (Sent-cases (sent k (nth_worker s k))) [
      | inl r ↦ rw (r, nth_worker-suc s k, e, nth_worker_last s v, ==_refl s.next) refl
      | inr (inl r) ↦ rw r refl
      | inr (inr r) ↦ rw r refl
    ]
run_loop-first_free (suc fuel) (suc n) sent s k v pos e h =
    elim (Sent-cases (sent k (nth_worker s k))) [
      | inl r ↦
          rw
            (
              r,
              nth_worker-suc s k,
              ==_ne _ _ (nth_worker_before s (k + 1) v (omega arith) (omega arith)),
            )
            (run_loop-first_free fuel n sent s (k + 1) v (omega arith) (omega arith) (omega arith))
      | inr (inl r) ↦ rw r refl
      | inr (inr r) ↦ rw r refl
    ]

nth_worker_first : (s : Static) → IsValid s → nth_worker s 0 ≡ s.next
nth_worker_first s v = mod_ap (s.next + 0) s.next s.size (omega arith) ∙ mod-eq_of_lt v

first_try : (n : ℕ) → 1 + suc n ≡ suc (suc n)
first_try n = omega arith

run-tries :
    (fuel n : ℕ) (sent : Tries) (s : Static)
    → IsValid s
    → suc (suc n) ≡ tries s
    → tries s ≤ fuel
    → run fuel sent s ≡ advance s (first_free (suc (suc n)) sent s 0)
unfolding run first_free after_try
run-tries fuel n sent s v e h = elim (Sent-cases (sent 0 s.next)) [
  | inl r ↦
      rw (nth_worker_first s v, r)
        (ap (advance s)
          (run_loop-first_free fuel n sent s 1 v (omega arith) (first_try n ∙ e) (omega arith)))
  | inr (inl r) ↦ rw (nth_worker_first s v, r) refl
  | inr (inr r) ↦ rw (nth_worker_first s v, r) refl
]

-- With fuel for each try, and a next worker that is one of the pool's, `run` gives the action to the
-- first worker in the rotation that does not turn it down, or panics if that one's thread has ended,
-- and refuses it when each of them turns it down; the next worker is the one behind it.
pub run-first_free :
    (fuel : ℕ) (sent : Tries) (s : Static)
    → IsValid s
    → tries s ≤ fuel
    → run fuel sent s ≡ advance s (first_free (tries s) sent s 0)
run-first_free fuel sent s v h =
    subst (λ n. run fuel sent s ≡ advance s (first_free n sent s 0)) (omega arith)
      (run-tries fuel (tries s - 2) sent s v (omega arith) h)

advance-IsValid : (s : Static) (o : Outcome) → IsValid s → IsValid (advance s o).0
advance-IsValid s (ran i) v = mod-lt (i + 1) (omega arith)
advance-IsValid s refused v = v
advance-IsValid s panicked v = v
advance-IsValid s running v = v

-- If the next worker is one of the pool's, it still is after a run, whatever becomes of the action.
run-IsValid : (fuel : ℕ) (sent : Tries) (s : Static) → IsValid s → IsValid (run fuel sent s).0
unfolding run
run-IsValid fuel sent s v =
    let again = run_loop fuel sent s 1 ((s.next + 1) % s.size) in
    advance-IsValid s (after_try s.next again (sent 0 s.next)) v

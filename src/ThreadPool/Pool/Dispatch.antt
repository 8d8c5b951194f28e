-- ===== src/ThreadPool/Pool/Dispatch.antt =====
-- When a pool of both kinds of workers refuses an action.
use mathlib.Core.Path.{subst}
use wruster.Base.{
  ℕ, zero, suc, ◌+◌, ◌<◌, ◌≤◌, ◌≡◌, ◌≢◌, ◌↔◌, refl, inl, inr, Option, none, some, arith,
}
use wruster.ThreadPool.Dynamic.Dispatch.{AllBusy, run-refused_iff}
use wruster.ThreadPool.Dynamic.{Dynamic, Reachable}
use wruster.ThreadPool.Pool.{Pool, run, run_dynamic, after_static}
use wruster.ThreadPool.Static.Rotation.{
  IsValid, tries, nth_worker, first_free, Sent-cases, run-first_free,
}
use wruster.ThreadPool.Static.{
  Static, full, Outcome, ran, refused, panicked, running, Tries, advance, after_try,
}

-- Each try of a call finds a worker that does not wait, and whose thread has not ended.
abbrev pub AllFull : Tries → Static → Type 0
AllFull sent s = (k : ℕ) → k < tries s → sent k (nth_worker s k) ≡ full

abbrev pub StaticRefuses : Tries → Option Static → Type 0
StaticRefuses sent none = Unit
StaticRefuses sent (some s) = AllFull sent s

abbrev pub DynamicRefuses : Option Dynamic → Type 0
DynamicRefuses none = Unit
DynamicRefuses (some d) = AllBusy d.slots

-- The fixed workers are valid and there is fuel for each try, and the others came about by `run`.
abbrev pub IsUsable : ℕ → ℕ → Pool → Type 0
IsUsable fuel max p =
    ((s : Static) → p.stat ≡ some s → IsValid s × (tries s ≤ fuel))
    × ((d : Dynamic) → p.dynamic ≡ some d → Reachable max d)

-- A property of the tries from `k` on is one of `k` and of those behind it.
from_first :
    (P : ℕ → Type 0) (n k : ℕ)
    → P k
    → ((j : ℕ) → j < n → P ((k + 1) + j))
    → (j : ℕ) → j < suc n
    → P (k + j)
from_first P n k here rest zero lt = let same : k ≡ k + 0 = omega arith in subst P same here
from_first P n k here rest (suc j) lt =
    let same : (k + 1) + j ≡ k + suc j = omega arith in subst P same (rest j (omega arith))

first_free-refused :
    (n k : ℕ) (sent : Tries) (s : Static)
    → first_free n sent s k ≡ refused
    → (j : ℕ) → j < n
    → sent (k + j) (nth_worker s (k + j)) ≡ full
unfolding first_free after_try
first_free-refused zero k sent s h = λ j lt. absurd (omega arith)
first_free-refused (suc n) k sent s h = elim (Sent-cases (sent k (nth_worker s k))) [
  | inr (inl r) ↦ let bad : ran (nth_worker s k) ≡ refused = rw r at h in cc
  | inr (inr r) ↦ let bad : panicked ≡ refused = rw r at h in cc
  | inl r ↦
      from_first (λ i. sent i (nth_worker s i) ≡ full) n k r
        (first_free-refused n (k + 1) sent s (rw r at h))
]

refused-first_free :
    (n k : ℕ) (sent : Tries) (s : Static)
    → ((j : ℕ) → j < n → sent (k + j) (nth_worker s (k + j)) ≡ full)
    → first_free n sent s k ≡ refused
unfolding first_free after_try
refused-first_free zero k sent s h = refl
refused-first_free (suc n) k sent s h =
    let now : k + 0 ≡ k = omega arith in
    let here = subst (λ i. sent i (nth_worker s i) ≡ full) now (h 0 (omega arith)) in
    rw here (
      refused-first_free n (k + 1) sent s (λ j lt.
        let same : k + suc j ≡ (k + 1) + j = omega arith in
        subst (λ i. sent i (nth_worker s i) ≡ full) same (h (suc j) (omega arith))))

first_free-ne-running : (n k : ℕ) (sent : Tries) (s : Static) → first_free n sent s k ≢ running
unfolding first_free after_try
first_free-ne-running zero k sent s h = cc
first_free-ne-running (suc n) k sent s h = elim (Sent-cases (sent k (nth_worker s k))) [
  | inr (inl r) ↦ let bad : ran (nth_worker s k) ≡ running = rw r at h in cc
  | inr (inr r) ↦ let bad : panicked ≡ running = rw r at h in cc
  | inl r ↦ first_free-ne-running n (k + 1) sent s (rw r at h)
]

run_dynamic-refused_iff :
    (max : ℕ) (p : Pool) (o : Option Dynamic)
    → ((d : Dynamic) → o ≡ some d → Reachable max d)
    → ((run_dynamic p o).1 ≡ refused) ↔ DynamicRefuses o
unfolding run_dynamic
run_dynamic-refused_iff max p none r = (λ h. tt, λ h. refl)
run_dynamic-refused_iff max p (some d) r = run-refused_iff d (r d refl)

after_static-refused_iff :
    (max : ℕ) (p : Pool) (s : Static) (o : Outcome)
    → o ≢ running
    → ((d : Dynamic) → p.dynamic ≡ some d → Reachable max d)
    → ((after_static p (advance s o)).1 ≡ refused) ↔ ((o ≡ refused) × DynamicRefuses p.dynamic)
unfolding after_static
after_static-refused_iff max p s (ran i) ne r = (λ h. cc, λ h. let bad = h.0 in cc)
after_static-refused_iff max p s refused ne r =
    let (to, back) = run_dynamic-refused_iff max (record p { stat = some s }) p.dynamic r in
    (λ h. (refl, to h), λ h. back h.1)
after_static-refused_iff max p s panicked ne r = (λ h. cc, λ h. let bad = h.0 in cc)
after_static-refused_iff max p s running ne r = absurd (ne refl)

first_free-refused_iff :
    (sent : Tries) (s : Static) → (first_free (tries s) sent s 0 ≡ refused) ↔ AllFull sent s
first_free-refused_iff sent s = (
  λ h k lt.
      let same : 0 + k ≡ k = omega arith in
      subst (λ i. sent i (nth_worker s i) ≡ full) same
        (first_free-refused (tries s) 0 sent s h k lt),
  λ h. refused-first_free (tries s) 0 sent s (λ k lt.
      let same : k ≡ 0 + k = omega arith in
      subst (λ i. sent i (nth_worker s i) ≡ full) same (h k lt)),
)

refused_iff-at :
    (fuel max : ℕ) (sent : Tries) (d : Option Dynamic) (o : Option Static)
    → ((s : Static) → o ≡ some s → IsValid s × (tries s ≤ fuel))
    → ((d' : Dynamic) → d ≡ some d' → Reachable max d')
    → ((run fuel sent (record { dynamic = d; stat = o })).1 ≡ refused)
      ↔ (StaticRefuses sent o × DynamicRefuses d)
unfolding run
refused_iff-at fuel max sent d none valid reach =
    let (to, back) = run_dynamic-refused_iff max (record { dynamic = d; stat = none }) d reach in
    (λ h. (tt, to h), λ h. back h.1)
refused_iff-at fuel max sent d (some s) valid reach =
    let (v, enough) = valid s refl in
    let (to, back) =
      after_static-refused_iff max (record { dynamic = d; stat = some s }) s
        (first_free (tries s) sent s 0) (first_free-ne-running (tries s) 0 sent s) reach in
    let (try_to, try_back) = first_free-refused_iff sent s in
    let tried = run-first_free fuel sent s v enough in
    (
      λ h. let (all_full, busy) = to (rw tried at h) in (try_to all_full, busy),
      λ h. rw tried (back (try_back h.0, h.1)),
    )

-- A pool refuses an action exactly when each try of a fixed worker finds that it does not wait, while its
-- thread has not ended, and each of its other workers is at an action, about to leave, or ended by the panic of an action. It does not
-- matter whether a pool has workers of both kinds.
pub refused_iff :
    (fuel max : ℕ) (sent : Tries) (p : Pool)
    → IsUsable fuel max p
    → ((run fuel sent p).1 ≡ refused) ↔ (StaticRefuses sent p.stat × DynamicRefuses p.dynamic)
refused_iff fuel max sent p (valid, reach) =
    refused_iff-at fuel max sent p.dynamic p.stat valid reach

-- ===== src/ThreadPool/Static/Threads/Ending.antt =====
-- The drop of the fixed workers: it ends, and when it does the actions have run.
use mathlib.Core.Path.{subst}
use wruster.Base.{
  ℕ, zero, suc, ◌+◌, ◌-◌, ◌*◌, ◌<◌, ◌≤◌, ◌≡◌, ◌⊎◌, inl, inr, refl, ap, Option, none, some, List, [],
  ◌∷◌, arith, get_elem?, length, length-set, set, count,
}
use wruster.ThreadPool.Static.Threads.{
  Thread, between, waiting, ended, working, crashed, Caller, dropped, panicking, dropping, System,
  moved, Step, calls, tries, receives, finishes, crashes, drops, disconnects, joins, join_panics,
  leaves, Reachable, next,
}
use wruster.Base.Schedule.{Settles, settled}
use wruster.ThreadPool.Static.Threads.Accounting.{holding, Reachable-IsCounted}
use wruster.ThreadPool.Static.Threads.Joining.{left, Joined, IsJoined, Reachable-IsJoined}

unfoldable pub work : List Thread → ℕ
work [] = 0
work (t ∷ threads) = left t + work threads

abbrev pub to_join : Caller → List Thread → ℕ
to_join (dropping i) threads = suc (length threads) - i
to_join _ threads = 0

-- A bound on the steps until the drop has ended.
abbrev pub effort : System → ℕ
effort s = work s.threads + to_join s.caller s.threads

work-set :
    (threads : List Thread) (i : ℕ) (t t' : Thread)
    → get_elem? threads i ≡ some t
    → work (set threads i t') + left t ≡ work threads + left t'
unfolding work
work-set [] i t t' e = cc
work-set (s ∷ threads) zero t t' e = ground arith
work-set (s ∷ threads) (suc i) t t' e = ground (arith, work-set threads i t t' e)

holding-ended :
    (a : ℕ) (threads : List Thread)
    → ((j : ℕ) → j < length threads → get_elem? threads j ≡ some ended)
    → holding a threads ≡ 0
unfolding holding
holding-ended a [] all = refl
holding-ended a (t ∷ threads) all =
    let this = all 0 (omega arith) in
    let others = holding-ended a threads (λ j h. all (suc j) (omega arith)) in
    ground (arith, this, others)

-- The drop has ended: every action that was taken ran to its end, or the drop panicked, and an action
-- had done so.
abbrev pub IsOver : System → Type 0
IsOver s =
    ((s.caller ≡ dropped) × ((a : ℕ) → count a s.executed ≡ count a s.accepted))
    ⊎ ((s.caller ≡ panicking) × ((i : ℕ) × (a : ℕ) × (get_elem? s.threads i ≡ some (crashed a))))

dropped-IsOver : {size : ℕ} {s : System} → Reachable size s → s.caller ≡ dropped → IsOver s
dropped-IsOver {s = s} r e =
    let done : Joined dropped s.threads =
      subst (λ c. Joined c s.threads) e (Reachable-IsJoined r) in
    inl (e, λ a. omega (arith, Reachable-IsCounted r a, holding-ended a s.threads done))

-- A step of the drop goes on with it or ends it.
Step-drops :
    {size : ℕ} {s s' : System} (i : ℕ)
    → Reachable size s'
    → Step s s'
    → s.caller ≡ dropping i
    → ((k : ℕ) × (s'.caller ≡ dropping k)) ⊎ IsOver s'
Step-drops i r (calls s a e) d = cc
Step-drops i r (tries s a from first e) d = cc
Step-drops i r (receives s j e) d = inl (i, d)
Step-drops i r (finishes s j a e) d = inl (i, d)
Step-drops i r (crashes s j a e) d = inl (i, d)
Step-drops i r (drops s e) d = cc
Step-drops i r (disconnects s j e h) d = inl (i, d)
Step-drops i r (joins s j e h) d = inl (suc j, refl)
Step-drops i r (join_panics s j a e h) d = inr (inr (refl, (j, a, h)))
Step-drops i r (leaves s j e h) d = inr (dropped-IsOver r refl)

effort-dropping :
    (s : System) (i : ℕ)
    → s.caller ≡ dropping i
    → effort s ≡ work s.threads + (suc (length s.threads) - i)
effort-dropping s i e = ap (λ c. work s.threads + to_join c s.threads) e

dropping-index : (s : System) (i : ℕ) → s.caller ≡ dropping i → IsJoined s → i ≤ length s.threads
dropping-index s i e v = let low = (subst (λ c. Joined c s.threads) e v).0 in low

moved-effort :
    (s : System) (i k : ℕ) (t t' : Thread)
    → s.caller ≡ dropping k
    → get_elem? s.threads i ≡ some t
    → left t' < left t
    → effort (moved s i t') < effort s
moved-effort s i k t t' d e less = omega (
  arith,
  effort-dropping s k d,
  effort-dropping (moved s i t') k d,
  work-set s.threads i t t' e,
  length-set s.threads i t',
  less,
)

Step-effort :
    {s s' : System} (k : ℕ) → Step s s' → s.caller ≡ dropping k → IsJoined s → effort s' < effort s
Step-effort k (calls s a e) d v = cc
Step-effort k (tries s a from first e) d v = cc
Step-effort k (receives s i e) d v = moved-effort s i k between waiting d e (omega arith)
Step-effort k (finishes s i a e) d v = moved-effort s i k (working a) between d e (omega arith)
Step-effort k (crashes s i a e) d v = moved-effort s i k (working a) (crashed a) d e (omega arith)
Step-effort k (drops s e) d v = cc
Step-effort k (disconnects s i e h) d v = moved-effort s i k waiting ended d h (omega arith)
Step-effort k (joins s i e h) d v = omega (arith, effort-dropping s i e, dropping-index s i e v)
Step-effort k (join_panics s i a e h) d v =
    omega (arith, effort-dropping s i e, dropping-index s i e v)
Step-effort k (leaves s i e h) d v = omega (arith, effort-dropping s i e, dropping-index s i e v)

-- Some step can be made until the drop has ended.
drop_step :
    (s : System) (i : ℕ) (o : Option Thread)
    → s.caller ≡ dropping i
    → get_elem? s.threads i ≡ o
    → (s' : System) × Step s s'
drop_step s i none d e = (_, leaves s i d e)
drop_step s i (some between) d e = (_, receives s i e)
drop_step s i (some waiting) d e = (_, disconnects s i d e)
drop_step s i (some ended) d e = (_, joins s i d e)
drop_step s i (some (working a)) d e = (_, finishes s i a e)
drop_step s i (some (crashed a)) d e = (_, join_panics s i a d e)

drop-settles_within :
    {size : ℕ} (n : ℕ) (s : System) (i : ℕ)
    → Reachable size s
    → s.caller ≡ dropping i
    → effort s ≤ n
    → Settles Step Step IsOver n s
drop-settles_within zero s i r d low =
    let index = dropping-index s i d (Reachable-IsJoined r) in
    absurd (omega (arith, effort-dropping s i d, index))
drop-settles_within (suc n) s i r d low = inr (
  drop_step s i (get_elem? s.threads i) d refl,
  λ s' step.
      let less = Step-effort i step d (Reachable-IsJoined r) in
      elim (Step-drops i (next r step) step d) [
        | inl (k, again) ↦ drop-settles_within n s' k (next r step) again (omega arith)
        | inr over ↦ settled Step Step IsOver n s' over
      ],
)

work-le : (threads : List Thread) → work threads ≤ 3 * length threads
unfolding work
work-le [] = omega arith
work-le (between ∷ threads) = omega (arith, work-le threads)
work-le (waiting ∷ threads) = omega (arith, work-le threads)
work-le (ended ∷ threads) = omega (arith, work-le threads)
work-le (working a ∷ threads) = omega (arith, work-le threads)
work-le (crashed a ∷ threads) = omega (arith, work-le threads)

-- However the threads are scheduled, the drop of the pool ends: while it goes on some step can be made,
-- and after four steps for each worker and one more it is over, with every action that the pool took
-- run to its end as often as it was taken, or it panicked where it joined a worker whose action had
-- panicked.
pub drop-settles :
    {size : ℕ} (s : System) (i : ℕ)
    → Reachable size s
    → s.caller ≡ dropping i
    → Settles Step Step IsOver (4 * length s.threads + 1) s
drop-settles s i r d =
    drop-settles_within (4 * length s.threads + 1) s i r d
      (omega (arith, effort-dropping s i d, work-le s.threads))

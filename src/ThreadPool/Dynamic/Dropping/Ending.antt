-- ===== src/ThreadPool/Dynamic/Dropping/Ending.antt =====
-- The drop of the pool ends, and when it does no worker is left.
use wruster.Base.Schedule.{Settles, settled}
use wruster.Base.{
  ℕ, zero, suc, ◌+◌, ◌-◌, ◌*◌, ◌<◌, ◌≤◌, ◌≡◌, ◌⊎◌, inl, inr, refl, ap, ◌∙◌, Option, none, some,
  List, [], ◌∷◌, arith, get_elem?, length, length-set, set, count,
}
use wruster.ThreadPool.Dynamic.{
  Slot, vacant, working, waiting, leaving, stopped, crashed, finishes, stops,
}
use wruster.ThreadPool.Dynamic.Invariant.{free}
use wruster.ThreadPool.Dynamic.Dropping.{
  Stage, dropping, dropped, panicking, Dropping, Step, turns, wakes, passes, joins, join_panics,
  leaves, Drops, goes,
}
use wruster.ThreadPool.Dynamic.Dropping.Joined.{
  left, Moved, at, Turn-Moved, at_stage, IsJoined, Drops-IsJoined,
}

unfoldable pub work : List Slot → ℕ
work [] = 0
work (s ∷ slots) = left s + work slots

-- The drop has ended: no slot has a live worker, and the cell of each was given back, once, or the drop
-- panicked, and the action of a worker had done so.
abbrev pub IsOver : Dropping → Type 0
IsOver s =
    ((s.stage ≡ dropped)
      × ((j : ℕ)
          → j < length s.pool.slots
          → (free (get_elem? s.pool.slots j) ≡ 1) × (count j s.pool.free_cells ≡ 1)))
    ⊎ ((s.stage ≡ panicking) × ((i : ℕ) × (get_elem? s.pool.slots i ≡ some crashed)))

dropped-IsOver : (s : Dropping) → IsJoined s → s.stage ≡ dropped → IsOver s
dropped-IsOver s (v, w) e = inl (e, λ j h. let one = at_stage s e v j h in (one, w j ∙ one))

-- A step of the drop goes on with it or ends it.
Step-drops :
    {s s' : Dropping} (i : ℕ)
    → Step s s'
    → IsJoined s'
    → s.stage ≡ dropping i
    → ((k : ℕ) × (s'.stage ≡ dropping k)) ⊎ IsOver s'
Step-drops i (turns s turn) v d = inl (i, d)
Step-drops i (wakes s j e h) v d = inl (i, d)
Step-drops i (passes s j e h) v d = inl (suc j, refl)
Step-drops i (joins s j e h) v d = inl (suc j, refl)
Step-drops i (join_panics s j e h) v d = inr (inr (refl, (j, h)))
Step-drops i (leaves s j e h) v d = inr (dropped-IsOver (record s { stage = dropped }) v refl)

abbrev to_join : Stage → List Slot → ℕ
to_join (dropping i) slots = suc (length slots) - i
to_join _ slots = 0

-- A bound on the steps until the drop has ended.
abbrev effort : Dropping → ℕ
effort s = work s.pool.slots + to_join s.stage s.pool.slots

work-set :
    (slots : List Slot) (i : ℕ) (s t : Slot)
    → get_elem? slots i ≡ some s
    → work (set slots i t) + left s ≡ work slots + left t
unfolding work
work-set [] i s t e = cc
work-set (x ∷ slots) zero s t e = ground arith
work-set (x ∷ slots) (suc i) s t e = ground (arith, work-set slots i s t e)

effort-dropping :
    (s : Dropping) (i : ℕ)
    → s.stage ≡ dropping i
    → effort s ≡ work s.pool.slots + (suc (length s.pool.slots) - i)
effort-dropping s i e = ap (λ c. work s.pool.slots + to_join c s.pool.slots) e

Moved-work :
    {slots slots' : List Slot}
    → Moved slots slots'
    → (work slots' < work slots) × (length slots' ≡ length slots)
Moved-work {slots = slots} (at i s t e less same) = (
  omega (arith, ap work same, work-set slots i s t e, less),
  ap length same ∙ length-set slots i t,
)

Moved-effort :
    (s s' : Dropping) (k : ℕ)
    → s.stage ≡ dropping k
    → s'.stage ≡ dropping k
    → Moved s.pool.slots s'.pool.slots
    → effort s' < effort s
Moved-effort s s' k d d' moved =
    let (less, same) = Moved-work moved in
    omega (arith, effort-dropping s k d, effort-dropping s' k d', less, same)

Step-effort :
    {s s' : Dropping} (k : ℕ) → Step s s' → s.stage ≡ dropping k → IsJoined s → effort s' < effort s
Step-effort k (turns s {d = p} turn) d v =
    Moved-effort s (record s { pool = p }) k d d (Turn-Moved turn)
Step-effort k (wakes s i e h) d v =
    Moved-effort s (record s { pool = record s.pool { slots = set s.pool.slots i leaving } }) k d d
      (at i waiting leaving h (omega arith) refl)
Step-effort k (passes s i e h) d v = omega (arith, effort-dropping s i e, (at_stage s e v.0).0)
Step-effort k (joins s i e h) d v = omega (arith, effort-dropping s i e, (at_stage s e v.0).0)
Step-effort k (join_panics s i e h) d v = omega (arith, effort-dropping s i e, (at_stage s e v.0).0)
Step-effort k (leaves s i e h) d v = omega (arith, effort-dropping s i e, (at_stage s e v.0).0)

-- Some step can be made until the drop has ended.
drop_step :
    (s : Dropping) (i : ℕ) (o : Option Slot)
    → s.stage ≡ dropping i
    → get_elem? s.pool.slots i ≡ o
    → (s' : Dropping) × Step s s'
drop_step s i none d e = (_, leaves s i d e)
drop_step s i (some vacant) d e = (_, passes s i d e)
drop_step s i (some working) d e = (_, turns s (finishes s.pool i e))
drop_step s i (some waiting) d e = (_, wakes s i d e)
drop_step s i (some leaving) d e = (_, turns s (stops s.pool i e))
drop_step s i (some stopped) d e = (_, joins s i d e)
drop_step s i (some crashed) d e = (_, join_panics s i d e)

dropping-settles_within :
    {max : ℕ} (n : ℕ) (s : Dropping) (i : ℕ)
    → Drops max s
    → s.stage ≡ dropping i
    → effort s ≤ n
    → Settles Step Step IsOver n s
dropping-settles_within zero s i r d low =
    absurd (omega (arith, effort-dropping s i d, (at_stage s d (Drops-IsJoined r).0).0))
dropping-settles_within (suc n) s i r d low = inr (
  drop_step s i (get_elem? s.pool.slots i) d refl,
  λ s' step.
      let less = Step-effort i step d (Drops-IsJoined r) in
      elim (Step-drops i step (Drops-IsJoined (goes r step)) d) [
        | inl (k, again) ↦ dropping-settles_within n s' k (goes r step) again (omega arith)
        | inr over ↦ settled Step Step IsOver n s' over
      ],
)

work-le : (slots : List Slot) → work slots ≤ 3 * length slots
unfolding work
work-le [] = omega arith
work-le (vacant ∷ slots) = omega (arith, work-le slots)
work-le (working ∷ slots) = omega (arith, work-le slots)
work-le (waiting ∷ slots) = omega (arith, work-le slots)
work-le (leaving ∷ slots) = omega (arith, work-le slots)
work-le (stopped ∷ slots) = omega (arith, work-le slots)
work-le (crashed ∷ slots) = omega (arith, work-le slots)

-- However the threads are scheduled, the drop of the pool ends: while it goes on some step can be made,
-- and after four steps for each slot and one more it is over. Then no worker is left and the cell of
-- each slot is free, once, or the drop panicked where it joined a worker whose action had panicked.
pub dropping-settles :
    {max : ℕ} (s : Dropping) (i : ℕ)
    → Drops max s
    → s.stage ≡ dropping i
    → Settles Step Step IsOver (4 * length s.pool.slots + 1) s
dropping-settles s i r d =
    dropping-settles_within (4 * length s.pool.slots + 1) s i r d
      (omega (arith, effort-dropping s i d, work-le s.pool.slots))

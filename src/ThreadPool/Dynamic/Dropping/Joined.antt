-- ===== src/ThreadPool/Dynamic/Dropping/Joined.antt =====
-- What holds of the slots as their workers are dropped.
use mathlib.Core.Path.{subst}
use wruster.Base.{
  ◌==◌, Bool-cases, get_elem?-bound, ℕ, zero, suc, ◌<◌, ◌≤◌, ◌≡◌, inl, inr, refl, sym, ap, ◌∙◌,
  none, some, List, [], ◌∷◌, arith, get_elem?, length, length-set, set,
}
use wruster.ThreadPool.Dynamic.{
  Slot, vacant, working, waiting, leaving, stopped, crashed, Dynamic, Turn, finishes, crashes,
  times_out, stops,
}
use wruster.ThreadPool.Dynamic.Invariant.{
  IsValid, free, get_elem?-moved, Turn-IsValid, moved-IsValid, Reachable-IsValid,
}
use wruster.ThreadPool.Dynamic.Dropping.{
  Stage, dropping, dropped, panicking, Dropping, Step, turns, wakes, passes, joins, join_panics,
  leaves, Drops, begins, goes,
}

-- The turns that a thread has left, an action that it runs included.
abbrev pub left : Slot → ℕ
left working = 3
left waiting = 2
left leaving = 1
left _ = 0

-- The slots before the one whose worker is dropped have no live worker.
abbrev pub Joined : Stage → List Slot → Type 0
Joined (dropping i) slots = (i ≤ length slots) × ((j : ℕ) → j < i → free (get_elem? slots j) ≡ 1)
Joined dropped slots = (j : ℕ) → j < length slots → free (get_elem? slots j) ≡ 1
Joined panicking slots = Unit

-- A turn of one thread changes its slot, and leaves it fewer turns.
pub data Moved (slots slots' : List Slot) : Type 0 where
  at :
      (i : ℕ) (s t : Slot)
      → get_elem? slots i ≡ some s
      → left t < left s
      → slots' ≡ set slots i t
      → Moved slots slots'

pub Turn-Moved : {d d' : Dynamic} → Turn d d' → Moved d.slots d'.slots
Turn-Moved (finishes d i e) = at i working waiting e (omega arith) refl
Turn-Moved (crashes d i e) = at i working crashed e (omega arith) refl
Turn-Moved (times_out d i e) = at i waiting leaving e (omega arith) refl
Turn-Moved (stops d i e) = at i leaving stopped e (omega arith) refl

live : (s t : Slot) → left t < left s → free (some s) ≡ 0
live working t h = refl
live waiting t h = refl
live leaving t h = refl
live vacant t h = absurd (omega arith)
live stopped t h = absurd (omega arith)
live crashed t h = absurd (omega arith)

stays_free :
    (slots : List Slot) (i j : ℕ) (s t : Slot)
    → get_elem? slots i ≡ some s
    → free (some s) ≡ 0
    → free (get_elem? slots j) ≡ 1
    → free (get_elem? (set slots i t) j) ≡ 1
stays_free slots i j s t e none_free h = ground (arith, get_elem?-moved slots i j t e)

set-Joined :
    (stage : Stage) (slots : List Slot) (i : ℕ) (s t : Slot)
    → get_elem? slots i ≡ some s
    → free (some s) ≡ 0
    → Joined stage slots
    → Joined stage (set slots i t)
set-Joined (dropping k) slots i s t e z (low, before) =
    (omega (arith, length-set slots i t), λ j h. stays_free slots i j s t e z (before j h))
set-Joined dropped slots i s t e z all =
    λ j h. stays_free slots i j s t e z (all j (omega (arith, length-set slots i t)))
set-Joined panicking slots i s t e z all = tt

pub Moved-Joined :
    (stage : Stage) {slots slots' : List Slot}
    → Moved slots slots'
    → Joined stage slots
    → Joined stage slots'
Moved-Joined stage {slots = slots} (at i s t e less same) v =
    subst (Joined stage) (sym same) (set-Joined stage slots i s t e (live s t less) v)

joined_next :
    (slots : List Slot) (i : ℕ) (s : Slot)
    → get_elem? slots i ≡ some s
    → free (some s) ≡ 1
    → Joined (dropping i) slots
    → Joined (dropping (suc i)) slots
joined_next slots i s e one (low, before) = (
  get_elem?-bound slots i e,
  λ j h. elim (Bool-cases (j == i)) [
    | inl eq ↦
        let same : j ≡ i = ground arith in ap (λ k. free (get_elem? slots k)) same ∙ ap free e ∙ one
    | inr ne ↦ before j (ground arith)
  ],
)

get_elem?-none : (slots : List Slot) (i : ℕ) → get_elem? slots i ≡ none → length slots ≤ i
get_elem?-none [] i e = omega arith
get_elem?-none (s ∷ slots) zero e = cc
get_elem?-none (s ∷ slots) (suc i) e = omega (arith, get_elem?-none slots i e)

pub at_stage :
    (s : Dropping) {stage : Stage}
    → s.stage ≡ stage
    → Joined s.stage s.pool.slots
    → Joined stage s.pool.slots
at_stage s e v = subst (λ c. Joined c s.pool.slots) e v

Step-Joined :
    {s s' : Dropping} → Step s s' → Joined s.stage s.pool.slots → Joined s'.stage s'.pool.slots
Step-Joined (turns s turn) v = Moved-Joined s.stage (Turn-Moved turn) v
Step-Joined (wakes s i e h) v = set-Joined s.stage s.pool.slots i waiting leaving h refl v
Step-Joined (passes s i e h) v = joined_next s.pool.slots i vacant h refl (at_stage s e v)
Step-Joined (joins s i e h) v = joined_next s.pool.slots i stopped h refl (at_stage s e v)
Step-Joined (join_panics s i e h) v = tt
Step-Joined (leaves s i e h) v =
    let (low, before) = at_stage s e v in
    λ j h'. before j (omega (arith, get_elem?-none s.pool.slots i h))

Step-IsValid : {s s' : Dropping} → Step s s' → IsValid s.pool → IsValid s'.pool
Step-IsValid (turns s turn) v = Turn-IsValid turn v
Step-IsValid (wakes s i e h) v = moved-IsValid s.pool i waiting leaving h refl v
Step-IsValid (passes s i e h) v = v
Step-IsValid (joins s i e h) v = v
Step-IsValid (join_panics s i e h) v = v
Step-IsValid (leaves s i e h) v = v

abbrev pub IsJoined : Dropping → Type 0
IsJoined s = Joined s.stage s.pool.slots × IsValid s.pool

pub Drops-IsJoined : {max : ℕ} {s : Dropping} → Drops max s → IsJoined s
Drops-IsJoined (begins r) = ((omega arith, λ j h. absurd (omega arith)), Reachable-IsValid r)
Drops-IsJoined (goes before step) =
    let (v, w) = Drops-IsJoined before in (Step-Joined step v, Step-IsValid step w)

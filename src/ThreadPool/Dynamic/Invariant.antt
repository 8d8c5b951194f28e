-- ===== src/ThreadPool/Dynamic/Invariant.antt =====
-- The free cells are exactly the slots that never had a worker or whose worker gave its cell back,
-- each once.
use mathlib.Core.Option.{some-injective}
use mathlib.Core.Path.{subst}
use wruster.Base.{
  ℕ, zero, suc, ◌+◌, ◌≡◌, ◌⊎◌, refl, sym, inl, inr, Option, none, some, List, [], ◌∷◌, ◌++◌, arith,
  get_elem?, set, replicate, get_elem?-bound, get_elem?-set_self, get_elem?-set_ne, count,
  count-append, ◌==◌, if◌then◌else◌, ltb,
}
use wruster.ThreadPool.Dynamic.{
  Slot, vacant, working, waiting, leaving, stopped, crashed, Dynamic, range, new, add_at,
  try_add_worker, first_waiting, behind, exec_any, exec_or_refuse, run, Turn, Step, runs, turns,
  finishes, crashes, times_out, stops, Reachable, start, next,
}

-- How often a slot is among the free cells.
abbrev pub free : Option Slot → ℕ
free (some vacant) = 1
free (some stopped) = 1
free _ = 0

abbrev pub IsValid : Dynamic → Type 0
IsValid d = (i : ℕ) → count i d.free_cells ≡ free (get_elem? d.slots i)

count-range :
    (i k n : ℕ) → count i (range k n) ≡ (if ltb i k then 0 else if ltb i (k + n) then 1 else 0)
unfolding count range
count-range i k zero = ground arith
count-range i k (suc n) = ground (arith, count-range i (k + 1) n)

get_elem?-replicate :
    (n i : ℕ) (s : Slot) → get_elem? (replicate n s) i ≡ (if ltb i n then some s else none)
get_elem?-replicate zero i s = ground arith
get_elem?-replicate (suc n) zero s = ground arith
get_elem?-replicate (suc n) (suc i) s = ground (arith, get_elem?-replicate n i s)

new-IsValid : (max : ℕ) → IsValid (new max)
unfolding new
new-IsValid max i = ground (arith, count-range i 0 max, get_elem?-replicate max i vacant)

pub get_elem?-moved :
    (slots : List Slot) (i j : ℕ) {s : Slot} (t : Slot)
    → get_elem? slots i ≡ some s
    → get_elem? (set slots i t) j ≡ (if i == j then some t else get_elem? slots j)
get_elem?-moved slots i j t e =
    ground (
      arith,
      get_elem?-set_self slots i t (get_elem?-bound slots i e),
      get_elem?-set_ne slots i j t,
    )

-- A slot may change where its freedom does not.
pub moved-IsValid :
    (d : Dynamic) (i : ℕ) (s t : Slot)
    → get_elem? d.slots i ≡ some s
    → free (some s) ≡ free (some t)
    → IsValid d
    → IsValid (record d { slots = set d.slots i t })
moved-IsValid d i s t e same v j = ground (arith, get_elem?-moved d.slots i j t e, v j)

pub free-cases :
    (o : Option Slot) → (free o ≡ 0) ⊎ ((s : Slot) × (o ≡ some s) × (free (some s) ≡ 1))
free-cases none = inl refl
free-cases (some vacant) = inr (vacant, refl, refl)
free-cases (some stopped) = inr (stopped, refl, refl)
free-cases (some _) = inl refl

-- The first of the free cells is a slot without a live worker.
pub first_cell-free :
    (d : Dynamic) (i : ℕ) (cells : List ℕ)
    → IsValid d
    → d.free_cells ≡ i ∷ cells
    → (s : Slot) × (get_elem? d.slots i ≡ some s) × (free (some s) ≡ 1)
unfolding count
first_cell-free d i cells v e = elim (free-cases (get_elem? d.slots i)) [
  | inl none_free ↦ absurd (ground (arith, v i))
  | inr found ↦ found
]

taken-IsValid :
    (d : Dynamic) (i : ℕ) (cells : List ℕ)
    → IsValid d
    → d.free_cells ≡ i ∷ cells
    → IsValid (record d { slots = set d.slots i working; free_cells = cells })
unfolding count
taken-IsValid d i cells v e j =
    let (s, here, one) = first_cell-free d i cells v e in
    ground (arith, get_elem?-moved d.slots i j working here, v j, v i)

stopped-IsValid :
    (d : Dynamic) (i : ℕ)
    → get_elem? d.slots i ≡ some leaving
    → IsValid d
    → IsValid (record d { slots = set d.slots i stopped; free_cells = d.free_cells ++ i ∷ [] })
stopped-IsValid d i e v j =
    ground (arith, get_elem?-moved d.slots i j stopped e, count-append j i d.free_cells, v j)

behind-some : (o : Option ℕ) {i : ℕ} → behind o ≡ some i → (j : ℕ) × (o ≡ some j) × (i ≡ suc j)
behind-some none e = cc
behind-some (some j) e = (j, refl, sym (some-injective _ _ e))

-- A worker that takes an action was waiting for it.
pub first_waiting-waiting :
    (slots : List Slot) (i : ℕ) → first_waiting slots ≡ some i → get_elem? slots i ≡ some waiting
unfolding first_waiting
first_waiting-waiting [] i e = cc
first_waiting-waiting (waiting ∷ slots) i e =
    subst (λ k. get_elem? (waiting ∷ slots) k ≡ some waiting) (some-injective _ _ e) refl
first_waiting-waiting (s ∷ slots) i e =
    let (j, found, after) = behind-some (first_waiting slots) e in
    subst (λ k. get_elem? (s ∷ slots) k ≡ some waiting) (sym after)
      (first_waiting-waiting slots j found)

exec_any-IsValid :
    (d : Dynamic) (o : Option ℕ) → first_waiting d.slots ≡ o → IsValid d → IsValid (exec_any d o).0
unfolding exec_any
exec_any-IsValid d none e v = v
exec_any-IsValid d (some i) e v =
    moved-IsValid d i waiting working (first_waiting-waiting d.slots i e) refl v

exec_or_refuse-IsValid :
    (d : Dynamic) (cells : List ℕ)
    → d.free_cells ≡ cells
    → IsValid d
    → IsValid (exec_or_refuse d (add_at d cells)).0
unfolding exec_or_refuse add_at
exec_or_refuse-IsValid d [] e v = exec_any-IsValid d (first_waiting d.slots) refl v
exec_or_refuse-IsValid d (i ∷ cells) e v = taken-IsValid d i cells v e

pub Turn-IsValid : {d d' : Dynamic} → Turn d d' → IsValid d → IsValid d'
Turn-IsValid (finishes d i e) v = moved-IsValid d i working waiting e refl v
Turn-IsValid (crashes d i e) v = moved-IsValid d i working crashed e refl v
Turn-IsValid (times_out d i e) v = moved-IsValid d i waiting leaving e refl v
Turn-IsValid (stops d i e) v = stopped-IsValid d i e v

Step-IsValid : {d d' : Dynamic} → Step d d' → IsValid d → IsValid d'
unfolding run try_add_worker
Step-IsValid (runs d) v = exec_or_refuse-IsValid d d.free_cells refl v
Step-IsValid (turns turn) v = Turn-IsValid turn v

-- In every state that a pool comes to, the free cells are the slots that never had a worker or whose
-- worker gave its cell back, each of them once.
pub Reachable-IsValid : {max : ℕ} {d : Dynamic} → Reachable max d → IsValid d
Reachable-IsValid {max = max} start = new-IsValid max
Reachable-IsValid (next before step) = Step-IsValid step (Reachable-IsValid before)

-- ===== src/ThreadPool/Dynamic.antt =====
-- wruster/src/thread_pool/dynamic_pool.rs: workers that are started for an action and stop when they
-- wait too long for the next one. A slot is what the pool's vector holds and where its thread stands;
-- the threads move by the steps of `Step`, between the calls of the pool.
pub mod Invariant
pub mod Dispatch
pub mod Lost
pub mod Dropping
use wruster.Base.{
  ℕ, zero, suc, ◌+◌, ◌-◌, ◌≡◌, Option, none, some, List, [], ◌∷◌, ◌++◌, get_elem?, set, replicate,
  length,
}
use wruster.ThreadPool.Static.{Outcome, ran, refused}

-- No worker yet; a worker at its action; one that waits for the next; one that waited too long and
-- is about to give its cell back; one that gave it back; one whose action panicked, which leaves its
-- loop without giving the cell back.
pub data Slot : Type 0 where
  vacant working waiting leaving stopped crashed : Slot

pub record Dynamic : Type 0 where
  pub slots : List Slot
  pub free_cells : List ℕ
  pub max : ℕ

-- 0, 1, … of `n` numbers, from `i` on.
unfoldable pub range : ℕ → ℕ → List ℕ
range i zero = []
range i (suc n) = i ∷ range (i + 1) n

-- `Dynamic::new`
unfoldable pub new : ℕ → Dynamic
new max = record { slots = replicate max vacant; free_cells = range 0 max; max = max }

-- `Dynamic::try_add_worker`: the new worker starts with the action.
unfoldable pub add_at : Dynamic → List ℕ → Option (ℕ × Dynamic)
add_at d [] = none
add_at d (index ∷ cells) =
    some (index, record d { slots = set d.slots index working; free_cells = cells })

unfoldable pub try_add_worker : Dynamic → Option (ℕ × Dynamic)
try_add_worker d = add_at d d.free_cells

abbrev pub behind : Option ℕ → Option ℕ
behind none = none
behind (some i) = some (suc i)

-- The first worker that takes an action: one that waits for it.
unfoldable pub first_waiting : List Slot → Option ℕ
first_waiting [] = none
first_waiting (waiting ∷ slots) = some 0
first_waiting (slot ∷ slots) = behind (first_waiting slots)

unfoldable pub exec_any : Dynamic → Option ℕ → Dynamic × Outcome
exec_any d none = (d, refused)
exec_any d (some i) = (record d { slots = set d.slots i working }, ran i)

unfoldable pub exec_or_refuse : Dynamic → Option (ℕ × Dynamic) → Dynamic × Outcome
exec_or_refuse d none = exec_any d (first_waiting d.slots)
exec_or_refuse d (some (index, d')) = (d', ran index)

-- `Dynamic::run`
unfoldable pub run : Dynamic → Dynamic × Outcome
run d = exec_or_refuse d (try_add_worker d)

unfoldable pub number_of_workers : Dynamic → ℕ
number_of_workers d = d.max - length d.free_cells

-- A move of one worker's thread.
pub data Turn : Dynamic → Dynamic → Type 0 where
  finishes :
      (d : Dynamic) (i : ℕ)
      → get_elem? d.slots i ≡ some working
      → Turn d (record d { slots = set d.slots i waiting })
  crashes :
      (d : Dynamic) (i : ℕ)
      → get_elem? d.slots i ≡ some working
      → Turn d (record d { slots = set d.slots i crashed })
  times_out :
      (d : Dynamic) (i : ℕ)
      → get_elem? d.slots i ≡ some waiting
      → Turn d (record d { slots = set d.slots i leaving })
  stops :
      (d : Dynamic) (i : ℕ)
      → get_elem? d.slots i ≡ some leaving
      → Turn d (record d { slots = set d.slots i stopped; free_cells = d.free_cells ++ i ∷ [] })

-- A call of the pool, or a move of a thread.
pub data Step : Dynamic → Dynamic → Type 0 where
  runs : (d : Dynamic) → Step d (run d).0
  turns : {d d' : Dynamic} → Turn d d' → Step d d'

-- What comes after a state.
pub data Later (d : Dynamic) : Dynamic → Type 0 where
  now : Later d d
  after : {d' d'' : Dynamic} → Later d d' → Step d' d'' → Later d d''

-- The states that a pool of `max` slots comes to.
pub data Reachable (max : ℕ) : Dynamic → Type 0 where
  start : Reachable max (new max)
  next : {d d' : Dynamic} → Reachable max d → Step d d' → Reachable max d'

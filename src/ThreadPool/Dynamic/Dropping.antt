-- ===== src/ThreadPool/Dynamic/Dropping.antt =====
-- wruster/src/thread_pool/dynamic_pool.rs, the drop of the pool: the workers are dropped in the order
-- of the vector, each by closing its channel and joining its thread. The free cells are dropped after
-- the workers, so a worker still gives its cell back. What comes after a panic is not modelled.
pub mod Joined
pub mod Ending
use wruster.Base.{ℕ, zero, suc, ◌≡◌, Option, none, some, get_elem?, set}
use wruster.ThreadPool.Dynamic.{
  vacant, waiting, leaving, stopped, crashed, Dynamic, Turn, Reachable,
}

-- At the drop of the worker of a slot, after the drop, or in the panic of a join.
pub data Stage : Type 0 where
  dropping : ℕ → Stage
  dropped panicking : Stage

pub record Dropping : Type 0 where
  pub pool : Dynamic
  pub stage : Stage

-- A move of a thread, or of the thread that drops the pool. `wakes`: the worker finds that its channel
-- is closed. `passes`: the slot never had a worker.
pub data Step : Dropping → Dropping → Type 0 where
  turns : (s : Dropping) {d : Dynamic} → Turn s.pool d → Step s (record s { pool = d })
  wakes :
      (s : Dropping) (i : ℕ)
      → s.stage ≡ dropping i
      → get_elem? s.pool.slots i ≡ some waiting
      → Step s (record s { pool = record s.pool { slots = set s.pool.slots i leaving } })
  passes :
      (s : Dropping) (i : ℕ)
      → s.stage ≡ dropping i
      → get_elem? s.pool.slots i ≡ some vacant
      → Step s (record s { stage = dropping (suc i) })
  joins :
      (s : Dropping) (i : ℕ)
      → s.stage ≡ dropping i
      → get_elem? s.pool.slots i ≡ some stopped
      → Step s (record s { stage = dropping (suc i) })
  join_panics :
      (s : Dropping) (i : ℕ)
      → s.stage ≡ dropping i
      → get_elem? s.pool.slots i ≡ some crashed
      → Step s (record s { stage = panicking })
  leaves :
      (s : Dropping) (i : ℕ)
      → s.stage ≡ dropping i
      → get_elem? s.pool.slots i ≡ none
      → Step s (record s { stage = dropped })

-- What the drop of a pool of `max` slots comes to.
pub data Drops (max : ℕ) : Dropping → Type 0 where
  begins : {d : Dynamic} → Reachable max d → Drops max (record { pool = d; stage = dropping 0 })
  goes : {s s' : Dropping} → Drops max s → Step s s' → Drops max s'

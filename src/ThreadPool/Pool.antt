-- ===== src/ThreadPool/Pool.antt =====
-- wruster/src/thread_pool/mod.rs: a pool of `min` fixed workers, and of up to `max` with those that
-- are started when the fixed ones are busy.
pub mod Capacity
pub mod Dispatch
use wruster.Base.{ℕ, ◌+◌, ◌-◌, Bool, ◌||◌, Option, none, some, ltb, if◌then◌else◌}
use wruster.ThreadPool.Dynamic
use wruster.ThreadPool.Dynamic.{Dynamic}
use wruster.ThreadPool.Static
use wruster.ThreadPool.Static.{Static, Outcome, ran, refused, running, Tries}

pub record Pool : Type 0 where
  pub dynamic : Option Dynamic
  pub stat : Option Static

-- `none` is the failed assertion that one of the two is positive.
unfoldable pub new : ℕ → ℕ → Option Pool
new min max =
    if ltb 0 min || ltb 0 max
    then some (record {
      dynamic = if ltb min max then some (Dynamic.new (max - min)) else none;
      stat = if ltb 0 min then some (Static.new min) else none;
    })
    else none

unfoldable pub run_dynamic : Pool → Option Dynamic → Pool × Outcome
run_dynamic p none = (p, refused)
run_dynamic p (some d) =
    let (d', outcome) = Dynamic.run d in (record p { dynamic = some d' }, outcome)

-- The dynamic workers are asked when the fixed ones refuse.
unfoldable pub after_static : Pool → Static × Outcome → Pool × Outcome
after_static p (s, refused) = run_dynamic (record p { stat = some s }) p.dynamic
after_static p (s, outcome) = (record p { stat = some s }, outcome)

-- `Pool::run`; the fuel and the tries are those of the fixed workers.
unfoldable pub run : ℕ → Tries → Pool → Pool × Outcome
run fuel sent p = elim p.stat [
  | none ↦ run_dynamic p p.dynamic
  | some s ↦ after_static p (Static.run fuel sent s)
]

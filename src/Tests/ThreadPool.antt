-- ===== src/Tests/ThreadPool.antt =====
-- A rotation of three workers of which the first is busy, a single slot, and a pool of both kinds.
use mathlib.Core.Option.{some-injective}
use mathlib.Core.Path.{subst}
use wruster.Base.{◌*◌, ◌+◌, ◌≤◌, some, ◌≢◌, [], ◌∷◌, ◌↔◌, refl, ◌≡◌, ◌==◌, if◌then◌else◌, arith}
use wruster.ThreadPool.Dynamic
use wruster.Base.Schedule.{Settles}
use wruster.ThreadPool.Dynamic.Dropping.{dropping, begins, Step}
use wruster.ThreadPool.Dynamic.Dropping.Ending.{IsOver, dropping-settles}
use wruster.ThreadPool.Dynamic.Lost.{IsCrashed, IsCrashed-lost}
use wruster.ThreadPool.Dynamic.{
  crashed, crashes, turns, now, after, Dynamic, Reachable, start, next, runs,
}
use wruster.ThreadPool.Dynamic.Invariant
use wruster.ThreadPool.Dynamic.Invariant.{Reachable-IsValid}
use wruster.ThreadPool.Pool
use wruster.ThreadPool.Pool.Dispatch.{IsUsable, StaticRefuses, DynamicRefuses, refused_iff}
use wruster.ThreadPool.Pool.{Pool}
use wruster.ThreadPool.Static.Rotation.{IsValid, tries}
use wruster.ThreadPool.Static.{Static, full, taken, ran, refused, Tries, new}

abbrev pool : Static
pool = new 3

abbrev first_is_busy : Tries
first_is_busy k i = if i == 0 then full else taken

pool-IsValid : IsValid pool
unfolding new
pool-IsValid = ground arith

abbrev one : Dynamic
one = Dynamic.new 1

-- The only slot is at an action.
abbrev busy : Dynamic
busy = (Dynamic.run one).0

busy-Reachable : Reachable 1 busy
busy-Reachable = next start (runs one)

Reachable-IsValid_example : Invariant.IsValid busy
Reachable-IsValid_example = Reachable-IsValid busy-Reachable

one-runs : (Dynamic.run one).1 ≡ ran 0
unfolding Dynamic.run Dynamic.try_add_worker Dynamic.add_at Dynamic.exec_or_refuse Dynamic.new
    Dynamic.range
one-runs = refl

abbrev all_full : Tries
all_full k i = full

-- Three fixed workers, and another that is at an action.
abbrev both : Pool
both = record { dynamic = some busy; stat = some pool }

some-inj-at : {A : Type 0} (P : A → Type 0) (a : A) → P a → (b : A) → some a ≡ some b → P b
some-inj-at P a p b e = subst P (some-injective a b e) p

both-IsUsable : IsUsable 3 1 both
unfolding new
both-IsUsable = (
  some-inj-at (λ s. IsValid s × (tries s ≤ 3)) pool (ground arith),
  some-inj-at (Reachable 1) busy busy-Reachable,
)

refused_iff_example :
    ((Pool.run 3 all_full both).1 ≡ refused)
    ↔ (StaticRefuses all_full both.stat × DynamicRefuses both.dynamic)
refused_iff_example = refused_iff 3 1 all_full both both-IsUsable

-- The action of the only worker panics.
abbrev lost : Dynamic
lost = record busy { slots = crashed ∷ [] }

lost-Reachable : Reachable 1 lost
unfolding Dynamic.run Dynamic.try_add_worker Dynamic.add_at Dynamic.exec_or_refuse Dynamic.new
    Dynamic.range
lost-Reachable = next busy-Reachable (turns (crashes busy 0 refl))

IsCrashed-lost_example :
    IsCrashed (Dynamic.run lost).0 0 × ((Dynamic.run (Dynamic.run lost).0).1 ≢ ran 0)
IsCrashed-lost_example = IsCrashed-lost 0 lost-Reachable refl (after now (runs lost))

-- The drop of the pool whose only worker is at an action.
dropping-settles_example :
    Settles Step Step IsOver (4 * 1 + 1) (record { pool = busy; stage = dropping 0 })
unfolding Dynamic.run Dynamic.try_add_worker Dynamic.add_at Dynamic.exec_or_refuse Dynamic.new
    Dynamic.range
dropping-settles_example =
    dropping-settles (record { pool = busy; stage = dropping 0 }) 0 (begins busy-Reachable) refl

-- ===== src/ThreadPool/Pool/Capacity.antt =====
-- How many workers a pool has room for.
use Prim.Native.Nat.{max}
use wruster.Base.{
  ℕ, ◌+◌, ◌-◌, ◌<◌, ◌≡◌, ◌⊎◌, Option, none, some, ltb, if◌then◌else◌, arith, length,
  length-replicate,
}
use wruster.ThreadPool.Dynamic
use wruster.ThreadPool.Dynamic.{Dynamic, vacant}
use wruster.ThreadPool.Pool.{Pool, new}
use wruster.ThreadPool.Static
use wruster.ThreadPool.Static.{Static}

abbrev pub static_size : Option Static → ℕ
static_size none = 0
static_size (some s) = s.size

abbrev pub dynamic_size : Option Dynamic → ℕ
dynamic_size none = 0
dynamic_size (some d) = length d.slots

-- A pool is made when one of its bounds is positive; it then has room for as many workers as the
-- larger bound says, also when the upper one is below the lower one.
pub new-capacity :
    (low high : ℕ)
    → (0 < low) ⊎ (0 < high)
    → (p : Pool) × (new low high ≡ some p)
      × (static_size p.stat + dynamic_size p.dynamic ≡ max low high)
unfolding new Static.new Dynamic.new
new-capacity low high h = (
  record {
    dynamic = if ltb low high then some (Dynamic.new (high - low)) else none;
    stat = if ltb 0 low then some (Static.new low) else none;
  },
  ground arith,
  ground (arith, length-replicate (high - low) vacant),
)

-- ===== src/Tests/Expiry.antt =====
-- A pool whose thread is parked when the pool is dropped.
use wruster.Base.Schedule.{Settles}
use wruster.Base.{ℕ, ◌≡◌, refl, true, none, some, codes}
use wruster.Client.ConnectionPool.Bounds.{IsPool}
use wruster.Client.ConnectionPool.Expiry
use wruster.Client.ConnectionPool.Expiry.Contents.{Reachable-IsPool}
use wruster.Client.ConnectionPool.Expiry.Ending.{IsOver, unparked-settles}
use wruster.Client.ConnectionPool.Expiry.{
  Prompt, checks, expires, parks, stores, unparks, Step, prompt, Reachable, start, next, new,
}
use wruster.Client.ConnectionPool.{insert}
use wruster.Client.ConnectionPool as Resources

abbrev asleep : Expiry.Pool ℕ
asleep = record (new none) { worker = Expiry.parked; resources = Resources.new }

asleep-Reachable : Reachable none asleep
unfolding new Resources.new Resources.expire_connections Resources.put_recent
asleep-Reachable =
    next (next (next start (prompt (checks _ refl))) (prompt (expires _ 40 refl)))
      (prompt (parks _ refl))

abbrev dropping : Expiry.Pool ℕ
dropping = record asleep { stop = true; token = true; owner = Expiry.joining }

unparked-settles_example : Settles Prompt Step IsOver 5 dropping
unfolding new
unparked-settles_example =
    unparked-settles dropping
      (next (next asleep-Reachable (prompt (stores _ refl))) (prompt (unparks _ refl))) refl

Reachable-IsPool_example :
    IsPool asleep.resources
    × ((resources : Resources.Pool ℕ) × (insert asleep.resources
            (codes "a:1")
            (record { resource = 7; last_used = 3 })
          ≡ some resources))
Reachable-IsPool_example = Reachable-IsPool (codes "a:1") _ asleep-Reachable

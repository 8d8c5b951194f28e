-- ===== src/Tests/Threads.antt =====
-- The fixed workers' threads: one worker that takes an action, and the drop of its pool.
use wruster.Base.{◌≡◌, refl, true, some, [], ◌∷◌, arith}
use wruster.Base.Schedule.{Settles}
use wruster.ThreadPool.Static
use wruster.ThreadPool.Static.Threads.Accounting.{IsCounted, Reachable-IsCounted}
use wruster.ThreadPool.Static.Threads.Ending.{IsOver, drop-settles}
use wruster.ThreadPool.Static.Threads.Unreachable.{HasCrashed, panicking-HasCrashed}
use wruster.ThreadPool.Static.Threads.{
  working, crashed, outside, panicking, trying, dropping, System, new, exec, after_exec, try_worker,
  receives, calls, tries, crashes, drops, join_panics, Step, Reachable, start, next,
}

-- The worker runs the action 7.
abbrev busy : System
busy = record {
  pool = record { size = 1; next = 0 };
  threads = working 7 ∷ [];
  caller = outside;
  accepted = 7 ∷ [];
  executed = [];
}

busy-Reachable : Reachable 1 busy
unfolding new try_worker after_exec exec Static.new
busy-Reachable =
    next (next (next start (receives (new 1) 0 refl)) (calls _ 7 refl)) (tries _ 7 0 true refl)

Reachable-IsCounted_example : IsCounted busy
Reachable-IsCounted_example = Reachable-IsCounted busy-Reachable

abbrev closing : System
closing = record busy { caller = dropping 0 }

drop-settles_example : Settles Step Step IsOver 5 closing
drop-settles_example = drop-settles closing 0 (next busy-Reachable (drops busy refl)) refl

-- The action panics, and the pool is dropped.
abbrev failed : System
failed = record busy { threads = crashed 7 ∷ []; caller = panicking }

failed-Reachable : Reachable 1 failed
failed-Reachable =
    next (next (next busy-Reachable (crashes busy 0 7 refl)) (drops _ refl))
      (join_panics _ 0 7 refl refl)

panicking-HasCrashed_example : HasCrashed (crashed 7 ∷ [])
panicking-HasCrashed_example = panicking-HasCrashed (omega arith) failed-Reachable refl

-- The first try of a call, after the action of its worker panicked.
abbrev again : System
again = record busy { threads = crashed 7 ∷ []; caller = trying 8 0 true }

again_panics : (try_worker again 8 0 true (some (crashed 7))).caller ≡ panicking
unfolding try_worker after_exec exec
again_panics = refl

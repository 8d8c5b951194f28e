-- ===== src/Tests/Lifecycle.antt =====
-- Starting and stopping a server at small inputs.
use wruster.Base.{◌*◌, ◌≢◌, length, ◌+◌, ◌<◌, ◌^◌, refl, ◌≡◌, true, some, [], ◌∷◌, arith, codes}
use wruster.Http.Error.{IoError, connection_reset, ok, err}
use wruster.Server.Accepting.Loop.{IsOrderly, all_tracked, accepts-IsOrderly}
use wruster.Server.Accepting.Stopping.{Stopping, begins, turns as turns_on, listed, Stopping-turns}
use wruster.Server.Accepting.{
  Accepts, moves, turns, returns, stopped, waiting, handling, submitting, answering, closing,
  connects, takes, busy, turn, after_wait, handle_event, after_run, after_events, close, clone,
  clone_at, let_go, let_go_at,
}
use wruster.Server.Lifecycle.Started.{starts, starts-first_bound}
use wruster.Server.Lifecycle.{
  from_timeouts, default_timeouts, shutdown, wait, ended, notified, join_result, wait_result,
}
use wruster.Streams.Observed
use wruster.Streams.Observed.Pending.{starts as start_of_list, tracked}
use wruster.Streams.Observed.{
  World, track_stream, releases, set_handles, handles, drain, dropped, upgrade, track,
}

abbrev taken : IoError
taken = record { kind = connection_reset; message = codes "address in use" }

-- The second attempt binds, and the third is refused.
starts-first_bound_example :
    ((starts
        ((codes "a", err taken) ∷ (codes "b", ok tt) ∷ (codes "c", ok tt) ∷ [])
        (from_timeouts default_timeouts)).addr
      ≡ some (codes "b"))
    × (shutdown (ok tt) (ended (ok tt)) (
          starts
            ((codes "a", err taken) ∷ (codes "b", ok tt) ∷ (codes "c", ok tt) ∷ [])
            (from_timeouts default_timeouts))
        ≡ ok tt)
    × (wait (ended (ok tt)) (
          starts
            ((codes "a", err taken) ∷ (codes "b", ok tt) ∷ (codes "c", ok tt) ∷ [])
            (from_timeouts default_timeouts))
        ≡ ok tt)
unfolding notified join_result wait_result
starts-first_bound_example =
    starts-first_bound default_timeouts
      ((codes "a", err taken) ∷ (codes "b", ok tt) ∷ (codes "c", ok tt) ∷ []) (ok tt)
      (ended (ok tt))

abbrev pub one : World
one = track_stream (record { list = Observed.new; streams = [] })

-- A round accepts a second stream, whose action the pool takes, and a worker lets the first one go.
abbrev given : World
given = clone 1 (track_stream one)

abbrev second : World
second = let_go 1 given

abbrev released : World
released = record second { streams = set_handles 0 0 second.streams }

abbrev emptied : World
emptied = record released { list = (drain released.list).1 }

stopping : Accepts waiting one (stopped (1 ∷ []) emptied)
unfolding turn after_wait handle_event after_run after_events close clone clone_at let_go let_go_at
    drain upgrade handles set_handles track_stream track Observed.new Observed.insert
    Observed.remove
stopping = turns (ok (connects takes ∷ [])) true (handling (connects takes ∷ [])) one refl (
    turns (ok []) true (submitting takes 1 []) given refl (
      turns (ok []) true (handling []) second refl (
        moves (releases 0 0 refl) (
          turns (ok []) true (closing (1 ∷ 0 ∷ []) []) emptied refl (
            turns (ok []) true (closing (0 ∷ []) (1 ∷ [])) emptied refl (
              turns (ok []) true (closing [] (1 ∷ [])) emptied refl
                (returns (ok []) true refl)))))))

few : 1 + all_tracked stopping < 2 ^ 64
unfolding stopping
few = omega arith

accepts-IsOrderly_example : IsOrderly (stopped (1 ∷ []) emptied)
accepts-IsOrderly_example =
    accepts-IsOrderly 1 one (stopped (1 ∷ []) emptied) stopping few (tracked start_of_list)

-- The pool is busy with the second stream, which is answered.
abbrev refused : World
refused = let_go 1 given

abbrev answered : World
answered = let_go 1 refused

answering_second : Stopping (handling (connects busy ∷ [])) one 3 (handling []) answered
unfolding turn handle_event after_run clone clone_at let_go let_go_at handles set_handles
    track_stream track Observed.new Observed.insert Observed.remove
answering_second =
    turns_on (ok []) (handling []) answered
      (turns_on (ok []) (answering 1 []) refused
        (turns_on (ok []) (submitting busy 1 []) given begins refl) refl)
      refl

-- It is not listed any more.
answered-list : answered.list.items ≡ 0 ∷ []
unfolding clone clone_at let_go let_go_at handles set_handles track_stream track dropped
    Observed.new Observed.insert Observed.remove
answered-list = refl

Stopping-turns_example :
    (handling [] ≢ waiting) × (3 < 4 * length (connects busy ∷ []) + listed one + 2)
Stopping-turns_example =
    Stopping-turns (connects busy ∷ []) one 3 (handling []) answered answering_second

-- ===== src/ThreadPool/Static.antt =====
-- wruster/src/thread_pool/static_pool.rs: a fixed number of workers, each behind a channel with no
-- buffer. A worker takes an action when it waits for one at the moment of the call; what `try_send`
-- finds at the tries of one `run` is a parameter, since the workers run beside it.
pub mod Rotation
pub mod Threads
use wruster.Base.{ℕ, zero, suc, ◌+◌, ◌%◌, ◌==◌, if◌then◌else◌}

pub record Static : Type 0 where
  pub size : ℕ
  pub next : ℕ

-- What `try_send` finds at the channel of a worker: one that waits, and takes the action; one that does
-- not wait; none, since its thread ended.
pub data Sent : Type 0 where
  taken full disconnected : Sent

-- What became of an action: the worker that took it, its return in the error, or a panic of the call.
pub data Outcome : Type 0 where
  ran : ℕ → Outcome
  refused panicked running : Outcome

-- `sent k i`: what try `k` of this call finds at worker `i`.
abbrev pub Tries : Type 0
Tries = ℕ → ℕ → Sent

unfoldable pub new : ℕ → Static
new size = record { size = size; next = 0 }

-- `Worker::exec` of the worker `from`, and what follows if it is full. A worker that is disconnected is
-- `unreachable!`.
unfoldable pub after_try : ℕ → Outcome → Sent → Outcome
after_try from next taken = ran from
after_try from next full = next
after_try from next disconnected = panicked

-- The loop of `Static::run`, at try `k` on the worker `from`.
unfoldable pub run_loop : ℕ → Tries → Static → ℕ → ℕ → Outcome
run_loop zero sent s k from = running
run_loop (suc fuel) sent s k from =
    let from' = (from + 1) % s.size in
    let again = run_loop fuel sent s (k + 1) from' in
    after_try from (if from' == s.next then refused else again) (sent k from)

-- The worker behind the one that ran is the next one.
abbrev pub advance : Static → Outcome → Static × Outcome
advance s (ran i) = (record s { next = (i + 1) % s.size }, ran i)
advance s outcome = (s, outcome)

-- `Static::run`
unfoldable pub run : ℕ → Tries → Static → Static × Outcome
run fuel sent s =
    let again = run_loop fuel sent s 1 ((s.next + 1) % s.size) in
    advance s (after_try s.next again (sent 0 s.next))

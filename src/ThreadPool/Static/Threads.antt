-- ===== src/ThreadPool/Static/Threads.antt =====
-- wruster/src/thread_pool/static_pool.rs: the fixed workers with their threads, and the thread that
-- calls the pool. Between any two moves of one of them the others may move. Actions are numbers. What
-- the caller does after a panic of the pool is not modelled.
pub mod Accounting
pub mod Joining
pub mod Ending
pub mod Unreachable
use wruster.Base.{
  ℕ, suc, ◌+◌, ◌%◌, ◌≡◌, Bool, true, false, Option, none, some, List, [], ◌∷◌, ◌++◌, get_elem?, set,
  replicate, ◌==◌, if◌then◌else◌,
}
use wruster.ThreadPool.Static
use wruster.ThreadPool.Static.{Static, Sent, taken, full, disconnected}

-- A worker's thread: it is initialized or done with an action, and has not called `recv` yet; it waits
-- in `recv`; it runs an action; it left its loop; the action panicked.
pub data Thread : Type 0 where
  between waiting ended : Thread
  working crashed : ℕ → Thread

-- The caller: outside of the pool; in `run`, about to try a worker, which is the first of the call or
-- not; in the drop of the worker at an index; after the drop of the pool; in a panic.
pub data Caller : Type 0 where
  outside dropped panicking : Caller
  trying : ℕ → ℕ → Bool → Caller
  dropping : ℕ → Caller

-- With the actions that `run` took, and those that ran to their end.
pub record System : Type 0 where
  pub pool : Static
  pub threads : List Thread
  pub caller : Caller
  pub accepted : List ℕ
  pub executed : List ℕ

-- `Static::new`: each `Worker::new` waits until its thread is initialized.
unfoldable pub new : ℕ → System
new size = record {
  pool = Static.new size;
  threads = replicate size between;
  caller = outside;
  accepted = [];
  executed = [];
}

-- `Worker::exec`
unfoldable pub exec : Thread → Sent
exec waiting = taken
exec between = full
exec (working a) = full
exec ended = disconnected
exec (crashed a) = disconnected

-- The next worker to try, or the end of the call.
unfoldable pub try_next : System → ℕ → ℕ → Bool → Caller
try_next s a from' true = trying a from' false
try_next s a from' false = if from' == s.pool.next then outside else trying a from' false

-- `Static::run` after one try. A worker that is disconnected is `unreachable!`.
unfoldable pub after_exec : System → ℕ → ℕ → Bool → Sent → System
after_exec s a from first taken = record s {
  pool = record s.pool { next = (from + 1) % s.pool.size };
  threads = set s.threads from (working a);
  caller = outside;
  accepted = s.accepted ++ a ∷ [];
}
after_exec s a from first full = record s { caller = try_next s a ((from + 1) % s.pool.size) first }
after_exec s a from first disconnected = record s { caller = panicking }

-- One try of `Static::run`; an index out of bounds is a panic.
unfoldable pub try_worker : System → ℕ → ℕ → Bool → Option Thread → System
try_worker s a from first none = record s { caller = panicking }
try_worker s a from first (some t) = after_exec s a from first (exec t)

abbrev pub moved : System → ℕ → Thread → System
moved s i t = record s { threads = set s.threads i t }

pub data Step : System → System → Type 0 where
  calls :
      (s : System) (a : ℕ)
      → s.caller ≡ outside
      → Step s (record s { caller = trying a s.pool.next true })
  tries :
      (s : System) (a from : ℕ) (first : Bool)
      → s.caller ≡ trying a from first
      → Step s (try_worker s a from first (get_elem? s.threads from))
  receives :
      (s : System) (i : ℕ) → get_elem? s.threads i ≡ some between → Step s (moved s i waiting)
  finishes :
      (s : System) (i a : ℕ)
      → get_elem? s.threads i ≡ some (working a)
      → Step s (record (moved s i between) { executed = s.executed ++ a ∷ [] })
  crashes :
      (s : System) (i a : ℕ)
      → get_elem? s.threads i ≡ some (working a)
      → Step s (moved s i (crashed a))
  drops : (s : System) → s.caller ≡ outside → Step s (record s { caller = dropping 0 })
  disconnects :
      (s : System) (i : ℕ)
      → s.caller ≡ dropping i
      → get_elem? s.threads i ≡ some waiting
      → Step s (moved s i ended)
  joins :
      (s : System) (i : ℕ)
      → s.caller ≡ dropping i
      → get_elem? s.threads i ≡ some ended
      → Step s (record s { caller = dropping (suc i) })
  join_panics :
      (s : System) (i a : ℕ)
      → s.caller ≡ dropping i
      → get_elem? s.threads i ≡ some (crashed a)
      → Step s (record s { caller = panicking })
  leaves :
      (s : System) (i : ℕ)
      → s.caller ≡ dropping i
      → get_elem? s.threads i ≡ none
      → Step s (record s { caller = dropped })

-- What a pool of `size` workers comes to.
pub data Reachable (size : ℕ) : System → Type 0 where
  start : Reachable size (new size)
  next : {s s' : System} → Reachable size s → Step s s' → Reachable size s'

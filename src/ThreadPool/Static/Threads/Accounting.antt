-- ===== src/ThreadPool/Static/Threads/Accounting.antt =====
-- What becomes of the actions that the fixed workers take.
use wruster.Base.{
  ℕ, zero, suc, ◌+◌, ◌≡◌, refl, Bool, Option, none, some, List, [], ◌∷◌, arith, get_elem?, set,
  replicate, count, count-append, ◌==◌, if◌then◌else◌,
}
use wruster.ThreadPool.Static.Threads.{
  Thread, between, waiting, ended, working, crashed, System, new, exec, Sent, taken, full,
  disconnected, after_exec, try_worker, Step, calls, tries, receives, finishes, crashes, drops,
  disconnects, joins, join_panics, leaves, Reachable, start, next,
}

-- Whether a thread holds an action, and how many of a list do.
abbrev pub held : ℕ → Thread → ℕ
held a (working b) = if a == b then 1 else 0
held a (crashed b) = if a == b then 1 else 0
held a _ = 0

unfoldable pub holding : ℕ → List Thread → ℕ
holding a [] = 0
holding a (t ∷ threads) = held a t + holding a threads

holding-set :
    (a : ℕ) (threads : List Thread) (i : ℕ) (t t' : Thread)
    → get_elem? threads i ≡ some t
    → holding a (set threads i t') + held a t ≡ holding a threads + held a t'
unfolding holding
holding-set a [] i t t' e = cc
holding-set a (s ∷ threads) zero t t' e = ground arith
holding-set a (s ∷ threads) (suc i) t t' e = ground (arith, holding-set a threads i t t' e)

holding-replicate : (a n : ℕ) → holding a (replicate n between) ≡ 0
unfolding holding
holding-replicate a zero = refl
holding-replicate a (suc n) = omega (arith, holding-replicate a n)

-- Every action that was taken ran to its end or is held by a thread, as often as it was taken.
abbrev pub IsCounted : System → Type 0
IsCounted s = (a : ℕ) → count a s.accepted ≡ count a s.executed + holding a s.threads

exec-waiting : (t : Thread) → exec t ≡ taken → t ≡ waiting
unfolding exec
exec-waiting waiting e = refl
exec-waiting between e = cc
exec-waiting (working a) e = cc
exec-waiting ended e = cc
exec-waiting (crashed a) e = cc

after_exec-IsCounted :
    (s : System) (a from : ℕ) (first : Bool) (t : Thread) (sent : Sent)
    → get_elem? s.threads from ≡ some t
    → exec t ≡ sent
    → IsCounted s
    → IsCounted (after_exec s a from first sent)
unfolding after_exec
after_exec-IsCounted s a from first t taken e sent v b =
    let idle = exec-waiting t sent in
    ground
      (arith, holding-set b s.threads from t (working a) e, count-append b a s.accepted, v b, idle)
after_exec-IsCounted s a from first t full e sent v b = v b
after_exec-IsCounted s a from first t disconnected e sent v b = v b

try_worker-IsCounted :
    (s : System) (a from : ℕ) (first : Bool) (o : Option Thread)
    → get_elem? s.threads from ≡ o
    → IsCounted s
    → IsCounted (try_worker s a from first o)
unfolding try_worker
try_worker-IsCounted s a from first none e v = v
try_worker-IsCounted s a from first (some t) e v =
    after_exec-IsCounted s a from first t (exec t) e refl v

Step-IsCounted : {s s' : System} → Step s s' → IsCounted s → IsCounted s'
Step-IsCounted (calls s a e) v = v
Step-IsCounted (tries s a from first e) v =
    try_worker-IsCounted s a from first (get_elem? s.threads from) refl v
Step-IsCounted (receives s i e) v =
    λ b. ground (arith, holding-set b s.threads i between waiting e, v b)
Step-IsCounted (finishes s i a e) v = λ b.
    ground
      (arith, holding-set b s.threads i (working a) between e, count-append b a s.executed, v b)
Step-IsCounted (crashes s i a e) v =
    λ b. ground (arith, holding-set b s.threads i (working a) (crashed a) e, v b)
Step-IsCounted (drops s e) v = v
Step-IsCounted (disconnects s i e h) v =
    λ b. ground (arith, holding-set b s.threads i waiting ended h, v b)
Step-IsCounted (joins s i e h) v = v
Step-IsCounted (join_panics s i a e h) v = v
Step-IsCounted (leaves s i e h) v = v

-- However the threads and the caller interleave, every action that the pool took was as often taken as
-- it ran to its end or is held by a thread, one that runs it or one in which it panicked: none is lost
-- and none runs twice.
pub Reachable-IsCounted : {size : ℕ} {s : System} → Reachable size s → IsCounted s
unfolding new count
Reachable-IsCounted {size = size} start = λ a. omega (arith, holding-replicate a size)
Reachable-IsCounted (next before step) = Step-IsCounted step (Reachable-IsCounted before)

-- ===== src/ThreadPool/Static/Threads/Unreachable.antt =====
-- When the pool of fixed workers panics.
use mathlib.Core.Path.{subst}
use wruster.Base.{
  ℕ, zero, suc, ◌+◌, ◌%◌, ◌<◌, ◌≡◌, ◌≢◌, inl, inr, refl, ◌∙◌, Bool, true, false, Option, none, some,
  List, arith, get_elem?, get_elem?-bound, get_elem?-set_self, get_elem?-set_ne, length, length-set,
  length-replicate, set, replicate, ◌==◌, if◌then◌else◌, Bool-cases,
}
use wruster.ThreadPool.Static
use wruster.ThreadPool.Static.Threads.Joining.{get_elem?-none-le}
use wruster.ThreadPool.Static.Threads.{
  Thread, between, waiting, ended, working, crashed, Caller, outside, dropped, panicking, trying,
  dropping, System, new, exec, Sent, taken, full, disconnected, try_next, after_exec, try_worker,
  moved, Step, calls, tries, receives, finishes, crashes, drops, disconnects, joins, join_panics,
  leaves, Reachable, start, next,
}

-- Some action panicked in a worker.
abbrev pub HasCrashed : List Thread → Type 0
HasCrashed threads = (i : ℕ) × (a : ℕ) × (get_elem? threads i ≡ some (crashed a))

abbrev NoneEnded : List Thread → Type 0
NoneEnded threads = (j : ℕ) → get_elem? threads j ≢ some ended

-- What holds of the threads at each place of the caller.
abbrev Fits : ℕ → Caller → List Thread → Type 0
Fits size outside threads = NoneEnded threads
Fits size (trying a from first) threads = (from < size) × NoneEnded threads
Fits size panicking threads = HasCrashed threads
Fits size _ threads = Unit

record IsSound (s : System) : Type 0 where
  inside : s.pool.next < s.pool.size
  sized : length s.threads ≡ s.pool.size
  fits : Fits s.pool.size s.caller s.threads

get_elem?-set :
    (threads : List Thread) (i j : ℕ) {t : Thread} (t' : Thread)
    → get_elem? threads i ≡ some t
    → get_elem? (set threads i t') j ≡ (if i == j then some t' else get_elem? threads j)
get_elem?-set threads i j t' e = ground (
  arith,
  get_elem?-set_self threads i t' (get_elem?-bound threads i e),
  get_elem?-set_ne threads i j t',
)

set-NoneEnded :
    (threads : List Thread) (i : ℕ) {t : Thread} (t' : Thread)
    → get_elem? threads i ≡ some t
    → t' ≢ ended
    → NoneEnded threads
    → NoneEnded (set threads i t')
set-NoneEnded threads i t' e live none_ended j h =
    ground (arith, get_elem?-set threads i j t' e, live, none_ended j)

abbrev IsLive : Thread → Type 0
IsLive (crashed a) = ⊥
IsLive _ = Unit

set-HasCrashed :
    (threads : List Thread) (i : ℕ) (t t' : Thread)
    → get_elem? threads i ≡ some t
    → IsLive t
    → HasCrashed threads
    → HasCrashed (set threads i t')
set-HasCrashed threads i t t' e live (j, a, h) = (
  j,
  a,
  elim (Bool-cases (i == j)) [
    | inl same ↦
        let at : i ≡ j = ground arith in
        let both : t ≡ crashed a = ground (arith, at) in absurd (subst IsLive both live)
    | inr other ↦ rw (get_elem?-set threads i j t' e, other) h
  ],
)

moved-Fits :
    (size : ℕ) (c : Caller) (threads : List Thread) (i : ℕ) (t t' : Thread)
    → get_elem? threads i ≡ some t
    → IsLive t
    → t' ≢ ended
    → Fits size c threads
    → Fits size c (set threads i t')
moved-Fits size outside threads i t t' e live goes f = set-NoneEnded threads i t' e goes f
moved-Fits size (trying a from first) threads i t t' e live goes (low, f) =
    (low, set-NoneEnded threads i t' e goes f)
moved-Fits size panicking threads i t t' e live goes f = set-HasCrashed threads i t t' e live f
moved-Fits size dropped threads i t t' e live goes f = tt
moved-Fits size (dropping k) threads i t t' e live goes f = tt

moved-IsSound :
    (s : System) (i : ℕ) (t t' : Thread)
    → get_elem? s.threads i ≡ some t
    → IsLive t
    → t' ≢ ended
    → IsSound s
    → IsSound (moved s i t')
moved-IsSound s i t t' e live goes v = record {
  inside = v.inside;
  sized = length-set s.threads i t' ∙ v.sized;
  fits = moved-Fits s.pool.size s.caller s.threads i t t' e live goes v.fits;
}

after-in_range : (from size : ℕ) → from < size → (from + 1) % size < size
after-in_range from size h = grind arith

try_next-Fits :
    (s : System) (a from' : ℕ) (first : Bool) (threads : List Thread)
    → from' < s.pool.size
    → NoneEnded threads
    → Fits s.pool.size (try_next s a from' first) threads
unfolding try_next
try_next-Fits s a from' true threads low f = (low, f)
try_next-Fits s a from' false threads low f = elim (Bool-cases (from' == s.pool.next)) [
  | inl e ↦ rw e f
  | inr e ↦ rw e (low, f)
]

disconnected-HasCrashed :
    (threads : List Thread) (i : ℕ) (t : Thread)
    → get_elem? threads i ≡ some t
    → exec t ≡ disconnected
    → NoneEnded threads
    → HasCrashed threads
unfolding exec
disconnected-HasCrashed threads i between e d f = cc
disconnected-HasCrashed threads i waiting e d f = cc
disconnected-HasCrashed threads i ended e d f = absurd (f i e)
disconnected-HasCrashed threads i (working a) e d f = cc
disconnected-HasCrashed threads i (crashed a) e d f = (i, a, e)

after_exec-IsSound :
    (s : System) (a from : ℕ) (first : Bool) (t : Thread) (sent : Sent)
    → get_elem? s.threads from ≡ some t
    → exec t ≡ sent
    → from < s.pool.size
    → NoneEnded s.threads
    → IsSound s
    → IsSound (after_exec s a from first sent)
unfolding after_exec
after_exec-IsSound s a from first t taken e d low f v = record {
  inside = after-in_range from s.pool.size low;
  sized = length-set s.threads from (working a) ∙ v.sized;
  fits = set-NoneEnded s.threads from (working a) e (λ h. cc) f;
}
after_exec-IsSound s a from first t full e d low f v = record {
  inside = v.inside;
  sized = v.sized;
  fits =
      try_next-Fits s a ((from + 1) % s.pool.size) first s.threads
        (after-in_range from s.pool.size low) f;
}
after_exec-IsSound s a from first t disconnected e d low f v = record {
  inside = v.inside;
  sized = v.sized;
  fits = disconnected-HasCrashed s.threads from t e d f;
}

try_worker-IsSound :
    (s : System) (a from : ℕ) (first : Bool) (o : Option Thread)
    → get_elem? s.threads from ≡ o
    → from < s.pool.size
    → NoneEnded s.threads
    → IsSound s
    → IsSound (try_worker s a from first o)
unfolding try_worker
try_worker-IsSound s a from first none e low f v =
    absurd (omega (arith, get_elem?-none-le s.threads from e, v.sized))
try_worker-IsSound s a from first (some t) e low f v =
    after_exec-IsSound s a from first t (exec t) e refl low f v

Fits-caller : (s : System) (c : Caller) → s.caller ≡ c → IsSound s → Fits s.pool.size c s.threads
Fits-caller s c e v = subst (λ d. Fits s.pool.size d s.threads) e v.fits

-- Only the caller moves.
placed-IsSound :
    (s : System) (c : Caller)
    → Fits s.pool.size c s.threads
    → IsSound s
    → IsSound (record s { caller = c })
placed-IsSound s c f v = record { inside = v.inside; sized = v.sized; fits = f }

Step-IsSound : {s s' : System} → Step s s' → IsSound s → IsSound s'
Step-IsSound (calls s a e) v =
    placed-IsSound s (trying a s.pool.next true) (v.inside, Fits-caller s outside e v) v
Step-IsSound (tries s a from first e) v =
    let (low, f) : Fits s.pool.size (trying a from first) s.threads =
      Fits-caller s (trying a from first) e v in
    try_worker-IsSound s a from first (get_elem? s.threads from) refl low f v
Step-IsSound (receives s i e) v = moved-IsSound s i between waiting e tt (λ h. cc) v
Step-IsSound (finishes s i a e) v =
    let u = moved-IsSound s i (working a) between e tt (λ h. cc) v in
    record { inside = u.inside; sized = u.sized; fits = u.fits }
Step-IsSound (crashes s i a e) v = moved-IsSound s i (working a) (crashed a) e tt (λ h. cc) v
Step-IsSound (drops s e) v = placed-IsSound s (dropping 0) tt v
Step-IsSound (disconnects s i e h) v = record {
  inside = v.inside;
  sized = length-set s.threads i ended ∙ v.sized;
  fits = rw e tt;
}
Step-IsSound (joins s i e h) v = placed-IsSound s (dropping (suc i)) tt v
Step-IsSound (join_panics s i a e h) v = placed-IsSound s panicking (i, a, h) v
Step-IsSound (leaves s i e h) v = placed-IsSound s dropped tt v

between-NoneEnded : (n j : ℕ) → get_elem? (replicate n between) j ≢ some ended
between-NoneEnded zero j h = cc
between-NoneEnded (suc n) zero h = cc
between-NoneEnded (suc n) (suc j) h = between-NoneEnded n j h

Reachable-IsSound : {size : ℕ} {s : System} → 0 < size → Reachable size s → IsSound s
unfolding new Static.new
Reachable-IsSound {size = size} some_worker start = record {
  inside = some_worker;
  sized = length-replicate size between;
  fits = between-NoneEnded size;
}
Reachable-IsSound some_worker (next before step) =
    Step-IsSound step (Reachable-IsSound some_worker before)

-- A pool with a worker panics, in `run` or in its drop, only if an action panicked in one of its
-- workers: else no index is out of bounds and `unreachable!` is not reached.
pub panicking-HasCrashed :
    {size : ℕ} {s : System}
    → 0 < size
    → Reachable size s
    → s.caller ≡ panicking
    → HasCrashed s.threads
panicking-HasCrashed {s = s} some_worker r e =
    Fits-caller s panicking e (Reachable-IsSound some_worker r)

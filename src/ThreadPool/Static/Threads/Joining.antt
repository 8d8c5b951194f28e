-- ===== src/ThreadPool/Static/Threads/Joining.antt =====
-- What is joined while the fixed workers are dropped.
use mathlib.Core.Path.{subst}
use wruster.Base.{
  ℕ, zero, suc, ◌+◌, ◌%◌, ◌<◌, ◌≤◌, ◌≡◌, inl, inr, Bool, true, false, Option, none, some, List, [],
  ◌∷◌, arith, get_elem?, get_elem?-bound, get_elem?-set_ne, length, length-set, set, ◌==◌,
  Bool-cases,
}
use wruster.ThreadPool.Static.Threads.{
  Thread, between, waiting, ended, working, crashed, Caller, outside, dropped, panicking, trying,
  dropping, System, new, exec, Sent, taken, full, disconnected, try_next, after_exec, try_worker,
  Step, calls, tries, receives, finishes, crashes, drops, disconnects, joins, join_panics, leaves,
  Reachable, start, next,
}

-- The steps that a thread still makes before it has ended, once the pool is being dropped.
abbrev pub left : Thread → ℕ
left (working a) = 3
left between = 2
left waiting = 1
left ended = 0
left (crashed a) = 0

-- The workers before the one that is dropped have ended; after the drop all have.
abbrev pub Joined : Caller → List Thread → Type 0
Joined (dropping i) threads =
    (i ≤ length threads) × ((j : ℕ) → j < i → get_elem? threads j ≡ some ended)
Joined dropped threads = (j : ℕ) → j < length threads → get_elem? threads j ≡ some ended
Joined _ threads = Unit

-- Nothing but an ended thread is replaced by an ended one, so what is joined stays so.
stays_ended :
    (threads : List Thread) (i j : ℕ) (t t' : Thread)
    → get_elem? threads i ≡ some t
    → (left t ≡ 0 → ⊥)
    → get_elem? threads j ≡ some ended
    → get_elem? (set threads i t') j ≡ some ended
stays_ended threads i j t t' e moves h =
    rw (get_elem?-set_ne threads i j t' (λ same. moves (ground (arith, same)))) h

moved-Joined :
    (c : Caller) (threads : List Thread) (i : ℕ) (t t' : Thread)
    → get_elem? threads i ≡ some t
    → (left t ≡ 0 → ⊥)
    → Joined c threads
    → Joined c (set threads i t')
moved-Joined (dropping k) threads i t t' e moves (low, done) = (
  omega (arith, length-set threads i t', low),
  λ j h. stays_ended threads i j t t' e moves (done j h),
)
moved-Joined dropped threads i t t' e moves done =
    λ j h. stays_ended threads i j t t' e moves (done j (omega (arith, length-set threads i t', h)))
moved-Joined outside threads i t t' e moves done = tt
moved-Joined panicking threads i t t' e moves done = tt
moved-Joined (trying a from first) threads i t t' e moves done = tt

pub get_elem?-none-le :
    (threads : List Thread) (i : ℕ) → get_elem? threads i ≡ none → length threads ≤ i
get_elem?-none-le [] i e = omega arith
get_elem?-none-le (t ∷ threads) zero e = cc
get_elem?-none-le (t ∷ threads) (suc i) e = omega (arith, get_elem?-none-le threads i e)

try_next-Joined :
    (s : System) (a from : ℕ) (first : Bool) (threads : List Thread)
    → Joined (try_next s a from first) threads
unfolding try_next
try_next-Joined s a from true threads = tt
try_next-Joined s a from false threads = elim (Bool-cases (from == s.pool.next)) [
  | inl e ↦ rw e tt
  | inr e ↦ rw e tt
]

after_exec-Joined :
    (s : System) (a from : ℕ) (first : Bool) (sent : Sent)
    → let s' = after_exec s a from first sent in Joined s'.caller s'.threads
unfolding after_exec
after_exec-Joined s a from first taken = tt
after_exec-Joined s a from first full =
    try_next-Joined s a ((from + 1) % s.pool.size) first s.threads
after_exec-Joined s a from first disconnected = tt

try_worker-Joined :
    (s : System) (a from : ℕ) (first : Bool) (o : Option Thread)
    → let s' = try_worker s a from first o in Joined s'.caller s'.threads
unfolding try_worker
try_worker-Joined s a from first none = tt
try_worker-Joined s a from first (some t) = after_exec-Joined s a from first (exec t)

abbrev pub IsJoined : System → Type 0
IsJoined s = Joined s.caller s.threads

joined_up_to :
    (threads : List Thread) (i : ℕ)
    → get_elem? threads i ≡ some ended
    → Joined (dropping i) threads
    → Joined (dropping (suc i)) threads
joined_up_to threads i e (low, done) = (
  get_elem?-bound threads i e,
  λ j h. elim (Bool-cases (j == i)) [
    | inl same ↦ let at : j ≡ i = ground arith in rw at e
    | inr other ↦ done j (ground arith)
  ],
)

Step-IsJoined : {s s' : System} → Step s s' → IsJoined s → IsJoined s'
Step-IsJoined (calls s a e) v = tt
Step-IsJoined (tries s a from first e) v =
    try_worker-Joined s a from first (get_elem? s.threads from)
Step-IsJoined (receives s i e) v =
    moved-Joined s.caller s.threads i between waiting e (λ h. omega arith) v
Step-IsJoined (finishes s i a e) v =
    moved-Joined s.caller s.threads i (working a) between e (λ h. omega arith) v
Step-IsJoined (crashes s i a e) v =
    moved-Joined s.caller s.threads i (working a) (crashed a) e (λ h. omega arith) v
Step-IsJoined (drops s e) v = (omega arith, λ j h. absurd (omega arith))
Step-IsJoined (disconnects s i e h) v =
    moved-Joined s.caller s.threads i waiting ended h (λ k. omega arith) v
Step-IsJoined (joins s i e h) v = joined_up_to s.threads i h (subst (λ c. Joined c s.threads) e v)
Step-IsJoined (join_panics s i a e h) v = tt
Step-IsJoined (leaves s i e h) v =
    let (low, done) : Joined (dropping i) s.threads = subst (λ c. Joined c s.threads) e v in
    λ j k. done j (omega (arith, get_elem?-none-le s.threads i h))

pub Reachable-IsJoined : {size : ℕ} {s : System} → Reachable size s → IsJoined s
unfolding new
Reachable-IsJoined start = tt
Reachable-IsJoined (next before step) = Step-IsJoined step (Reachable-IsJoined before)

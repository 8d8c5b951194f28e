-- ===== src/ThreadPool/Dynamic/Lost.antt =====
-- The slot of a worker whose action panicked.
use wruster.Base.{
  ℕ, ◌≡◌, ◌≢◌, refl, Option, none, some, List, [], ◌∷◌, arith, get_elem?, set, sym, ◌∙◌, ap,
}
use mathlib.Core.Bool.{true≢false}
use mathlib.Core.Option.{some-injective}
use wruster.ThreadPool.Dynamic.Dispatch.{is_busy, run-IsIdle}
use wruster.ThreadPool.Dynamic.Invariant.{
  IsValid, free, get_elem?-moved, first_cell-free, first_waiting-waiting, Reachable-IsValid,
}
use wruster.ThreadPool.Dynamic.{
  Slot, working, waiting, leaving, stopped, crashed, Dynamic, add_at, try_add_worker, first_waiting,
  exec_any, exec_or_refuse, run, Turn, Step, runs, turns, finishes, crashes, times_out, stops,
  Later, now, after, Reachable, next,
}
use wruster.ThreadPool.Static.{ran}

abbrev pub IsCrashed : Dynamic → ℕ → Type 0
IsCrashed d i = get_elem? d.slots i ≡ some crashed

-- A move of another slot leaves it.
stays_crashed :
    (slots : List Slot) (i j : ℕ) (s t : Slot)
    → get_elem? slots j ≡ some s
    → s ≢ crashed
    → get_elem? slots i ≡ some crashed
    → get_elem? (set slots j t) i ≡ some crashed
stays_crashed slots i j s t e live h =
    ground (arith, get_elem?-moved slots j i t e, h, λ (k : s ≡ crashed). live k)

exec_any-IsCrashed :
    (d : Dynamic) (o : Option ℕ) (i : ℕ)
    → first_waiting d.slots ≡ o
    → IsCrashed d i
    → IsCrashed (exec_any d o).0 i
unfolding exec_any
exec_any-IsCrashed d none i e h = h
exec_any-IsCrashed d (some j) i e h =
    stays_crashed d.slots i j waiting working (first_waiting-waiting d.slots j e) (λ k. cc) h

exec_or_refuse-IsCrashed :
    (d : Dynamic) (cells : List ℕ) (i : ℕ)
    → IsValid d
    → d.free_cells ≡ cells
    → IsCrashed d i
    → IsCrashed (exec_or_refuse d (add_at d cells)).0 i
unfolding exec_or_refuse add_at
exec_or_refuse-IsCrashed d [] i v e h = exec_any-IsCrashed d (first_waiting d.slots) i refl h
exec_or_refuse-IsCrashed d (j ∷ cells) i v e h =
    let (s, here, one) = first_cell-free d j cells v e in
    stays_crashed d.slots i j s working here
      (λ k. absurd (let zero_one : 0 ≡ 1 = sym (ap (λ s. free (some s)) k) ∙ one in omega arith)) h

Turn-IsCrashed : {d d' : Dynamic} (i : ℕ) → Turn d d' → IsCrashed d i → IsCrashed d' i
Turn-IsCrashed i (finishes d j e) h = stays_crashed d.slots i j working waiting e (λ k. cc) h
Turn-IsCrashed i (crashes d j e) h = stays_crashed d.slots i j working crashed e (λ k. cc) h
Turn-IsCrashed i (times_out d j e) h = stays_crashed d.slots i j waiting leaving e (λ k. cc) h
Turn-IsCrashed i (stops d j e) h = stays_crashed d.slots i j leaving stopped e (λ k. cc) h

Step-IsCrashed : {d d' : Dynamic} (i : ℕ) → Step d d' → IsValid d → IsCrashed d i → IsCrashed d' i
unfolding run try_add_worker
Step-IsCrashed i (runs d) v h = exec_or_refuse-IsCrashed d d.free_cells i v refl h
Step-IsCrashed i (turns turn) v h = Turn-IsCrashed i turn h

Later-IsCrashed :
    {max : ℕ} {d d' : Dynamic} (i : ℕ)
    → Reachable max d
    → Later d d'
    → IsCrashed d i
    → Reachable max d' × IsCrashed d' i
Later-IsCrashed i r now h = (r, h)
Later-IsCrashed i r (after before step) h =
    let (r', h') = Later-IsCrashed i r before h in
    (next r' step, Step-IsCrashed i step (Reachable-IsValid r') h')

-- The slot of a worker whose action panicked is lost: whatever the pool and its threads do later, it
-- stays that slot, and no action is given to it.
pub IsCrashed-lost :
    {max : ℕ} {d d' : Dynamic} (i : ℕ)
    → Reachable max d
    → IsCrashed d i
    → Later d d'
    → IsCrashed d' i × ((run d').1 ≢ ran i)
IsCrashed-lost {d' = d'} i r h later =
    let (r', h') = Later-IsCrashed i r later h in
    (
      h',
      λ ran_here.
          let (s, here, idle) = run-IsIdle d' i r' ran_here in
          let same : s ≡ crashed = some-injective _ _ (sym here ∙ h') in
          true≢false (sym (ap is_busy same) ∙ idle),
    )

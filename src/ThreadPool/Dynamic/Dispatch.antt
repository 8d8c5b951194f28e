-- ===== src/ThreadPool/Dynamic/Dispatch.antt =====
-- Who takes an action, and when it is refused.
use mathlib.Core.Path.{subst}
use mathlib.Core.Bool.{true≢false}
use wruster.Base.{
  count, ℕ, zero, suc, ◌≡◌, ◌≢◌, ◌↔◌, refl, sym, ap, ◌∙◌, Bool, true, false, Option, none, some,
  List, [], ◌∷◌, arith, get_elem?,
}
use wruster.ThreadPool.Static.{Outcome, ran, refused}
use wruster.ThreadPool.Dynamic.Invariant.{
  IsValid, free, first_cell-free, first_waiting-waiting, Reachable-IsValid,
}
use wruster.ThreadPool.Dynamic.{
  Slot, vacant, working, waiting, leaving, stopped, crashed, Dynamic, add_at, try_add_worker,
  first_waiting, behind, exec_any, exec_or_refuse, run, Reachable,
}

-- A worker at its action, about to leave, or ended by the panic of an action.
abbrev pub is_busy : Slot → Bool
is_busy working = true
is_busy leaving = true
is_busy crashed = true
is_busy _ = false

abbrev pub AllBusy : List Slot → Type 0
AllBusy slots = (i : ℕ) (s : Slot) → get_elem? slots i ≡ some s → is_busy s ≡ true

free-idle : (s : Slot) → free (some s) ≡ 1 → is_busy s ≡ false
free-idle vacant e = refl
free-idle stopped e = refl
free-idle working e = absurd (omega arith)
free-idle waiting e = absurd (omega arith)
free-idle leaving e = absurd (omega arith)
free-idle crashed e = absurd (omega arith)

abbrev worker_of : Outcome → ℕ
worker_of (ran i) = i
worker_of _ = 0

-- A slot whose worker, if there is one, is not at an action, not about to leave and not ended by the
-- panic of an action.
abbrev pub IsIdle : Dynamic → ℕ → Type 0
IsIdle d i = (s : Slot) × (get_elem? d.slots i ≡ some s) × (is_busy s ≡ false)

exec_any-IsIdle :
    (d : Dynamic) (o : Option ℕ) (i : ℕ)
    → first_waiting d.slots ≡ o
    → (exec_any d o).1 ≡ ran i
    → IsIdle d i
unfolding exec_any
exec_any-IsIdle d none i e r = cc
exec_any-IsIdle d (some j) i e r =
    subst (IsIdle d) (ap worker_of r) (waiting, first_waiting-waiting d.slots j e, refl)

exec_or_refuse-IsIdle :
    (d : Dynamic) (cells : List ℕ) (i : ℕ)
    → IsValid d
    → d.free_cells ≡ cells
    → (exec_or_refuse d (add_at d cells)).1 ≡ ran i
    → IsIdle d i
unfolding exec_or_refuse add_at
exec_or_refuse-IsIdle d [] i v e r = exec_any-IsIdle d (first_waiting d.slots) i refl r
exec_or_refuse-IsIdle d (j ∷ cells) i v e r =
    let (s, here, one) = first_cell-free d j cells v e in
    subst (IsIdle d) (ap worker_of r) (s, here, free-idle s one)

-- In a reachable state an action goes to an idle slot, so that no action is cut off or waited for.
pub run-IsIdle : {max : ℕ} (d : Dynamic) (i : ℕ) → Reachable max d → (run d).1 ≡ ran i → IsIdle d i
unfolding run try_add_worker
run-IsIdle d i reach r = exec_or_refuse-IsIdle d d.free_cells i (Reachable-IsValid reach) refl r

behind-none : (o : Option ℕ) → behind o ≡ none → o ≡ none
behind-none none e = refl
behind-none (some i) e = cc

first_waiting-none :
    (slots : List Slot) (i : ℕ) → first_waiting slots ≡ none → get_elem? slots i ≢ some waiting
unfolding first_waiting
first_waiting-none [] i e h = cc
first_waiting-none (waiting ∷ slots) i e h = cc
first_waiting-none (s ∷ slots) zero e h = cc
first_waiting-none (s ∷ slots) (suc i) e h =
    first_waiting-none slots i (behind-none (first_waiting slots) e) h

busy-cases : (s : Slot) → free (some s) ≡ 0 → s ≢ waiting → is_busy s ≡ true
busy-cases vacant e ne = absurd (omega arith)
busy-cases stopped e ne = absurd (omega arith)
busy-cases waiting e ne = absurd (ne refl)
busy-cases working e ne = refl
busy-cases leaving e ne = refl
busy-cases crashed e ne = refl

exec_any-refused_iff :
    (d : Dynamic) (o : Option ℕ)
    → IsValid d
    → d.free_cells ≡ []
    → first_waiting d.slots ≡ o
    → ((exec_any d o).1 ≡ refused) ↔ AllBusy d.slots
unfolding exec_any count
exec_any-refused_iff d none v e f = (
  λ r i s here.
      busy-cases s (ap free (sym here) ∙ sym (v i) ∙ rw e)
        (λ w. first_waiting-none d.slots i f (here ∙ ap some w)),
  λ busy. refl,
)
exec_any-refused_iff d (some j) v e f = (
  λ r. cc,
  λ busy. absurd (true≢false (sym (busy j waiting (first_waiting-waiting d.slots j f)))),
)

exec_or_refuse-refused_iff :
    (d : Dynamic) (cells : List ℕ)
    → IsValid d
    → d.free_cells ≡ cells
    → ((exec_or_refuse d (add_at d cells)).1 ≡ refused) ↔ AllBusy d.slots
unfolding exec_or_refuse add_at
exec_or_refuse-refused_iff d [] v e = exec_any-refused_iff d (first_waiting d.slots) v e refl
exec_or_refuse-refused_iff d (j ∷ cells) v e =
    let (s, here, one) = first_cell-free d j cells v e in
    (λ r. cc, λ busy. absurd (true≢false (sym (busy j s here) ∙ free-idle s one)))

-- In a reachable state an action is refused exactly when every slot has a worker that is at an
-- action, about to leave, or ended by the panic of an action.
pub run-refused_iff :
    {max : ℕ} (d : Dynamic) → Reachable max d → ((run d).1 ≡ refused) ↔ AllBusy d.slots
unfolding run try_add_worker
run-refused_iff d reach = exec_or_refuse-refused_iff d d.free_cells (Reachable-IsValid reach) refl

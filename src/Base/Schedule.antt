-- ===== src/Base/Schedule.antt =====
-- Systems whose parts move in any order.
use Prim.Native.Nat.{ℕ, zero, suc}
use mathlib.Core.Logic.{◌⊎◌, inl}

module _ {S : Type 0} (Prompt Step : S → S → Type 0) (P : S → Type 0) where
  -- Whatever steps are made, a prompt one can always be made until `P`, and after `n` steps `P` holds.
  abbrev pub Settles : ℕ → S → Type 0
  Settles zero s = P s
  Settles (suc n) s = P s ⊎ (((s' : S) × Prompt s s') × ((s' : S) → Step s s' → Settles n s'))

  pub settled : (n : ℕ) (s : S) → P s → Settles n s
  settled zero s h = h
  settled (suc n) s h = inl h

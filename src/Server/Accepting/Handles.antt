-- ===== src/Server/Accepting/Handles.antt =====
-- The handles of the tracked streams, as the accepting loop and the threads move.
use mathlib.Core.Path.{subst}
use mathlib.Core.Option.{some-injective}
use wruster.Base.{
  ℕ, zero, suc, ◌≡◌, ◌≢◌, refl, sym, ap, ◌∙◌, Option, none, some, List, [], ◌∷◌, arith, count, ◌==◌,
  if◌then◌else◌, Bool-cases, Option-cases, inl, inr,
}
use wruster.Server.Accepting.{clone_at, let_go_at, let_go}
use wruster.Streams.Observed.Pending.{Reachable, moved, keys, IsDistinct, Lacks}
use wruster.Streams.Observed.{
  World, Streams, Step, clones, releases, drops, dropped, handles, set_handles, free, upgrade,
  remove,
}

handles-set_ne :
    (key j n : ℕ) (streams : Streams)
    → key ≢ j
    → handles (set_handles key n streams) j ≡ handles streams j
unfolding handles set_handles
handles-set_ne key j n [] ne = refl
handles-set_ne key j n ((k, m) ∷ streams) ne = ground (arith, handles-set_ne key j n streams ne)

handles-set_self :
    (key n m : ℕ) (streams : Streams)
    → handles streams key ≡ some m
    → handles (set_handles key n streams) key ≡ some n
unfolding handles set_handles
handles-set_self key n m [] e = cc
handles-set_self key n m ((k, m') ∷ streams) e = elim (Bool-cases (k == key)) [
  | inl here ↦ ground arith
  | inr there ↦ ground (arith, handles-set_self key n m streams)
]

-- A stream that a handle holds.
abbrev pub IsHeld : Streams → ℕ → Type 0
IsHeld streams key = (n : ℕ) × (handles streams key ≡ some (suc n))

handles-free :
    (key j : ℕ) (streams : Streams)
    → handles (free key streams) j ≡ (if key == j then none else handles streams j)
unfolding handles free
handles-free key j [] = ground arith
handles-free key j ((k, n) ∷ streams) = ground (arith, handles-free key j streams)

IsHeld-set :
    (key n m j : ℕ) (streams : Streams)
    → handles streams key ≡ some (suc m)
    → IsHeld (set_handles key n streams) j
    → IsHeld streams j
IsHeld-set key n m j streams e (x, h) = elim (Bool-cases (key == j)) [
  | inl same ↦ let here : key ≡ j = ground arith in (m, ap (handles streams) (sym here) ∙ e)
  | inr other ↦ (x, sym (handles-set_ne key j n streams (λ s. ground arith)) ∙ h)
]

IsHeld-free : (key j : ℕ) (streams : Streams) → IsHeld (free key streams) j → IsHeld streams j
IsHeld-free key j streams (x, h) = elim (Bool-cases (key == j)) [
  | inl same ↦ absurd (ground (arith, handles-free key j streams))
  | inr other ↦ (x, ground (arith, handles-free key j streams))
]

-- A stream that is held after a step was held before it.
pub Step-IsHeld : {w w' : World} (j : ℕ) → Step w w' → IsHeld w'.streams j → IsHeld w.streams j
Step-IsHeld {w} j (clones key n e) h = IsHeld-set key (suc (suc n)) n j w.streams e h
Step-IsHeld {w} j (releases key n e) h = IsHeld-set key n n j w.streams e h
Step-IsHeld {w} j (drops key e) h = IsHeld-free key j w.streams h

pub Step-emptied : {w w' : World} → Step w w' → w.list.items ≡ [] → w'.list.items ≡ []
unfolding dropped remove
Step-emptied (clones key n e) h = h
Step-emptied (releases key n e) h = h
Step-emptied (drops key e) h = rw h

pub clone_at-Reachable :
    (n key : ℕ) (w : World) (o : Option ℕ)
    → handles w.streams key ≡ o
    → Reachable n w
    → Reachable n (clone_at key w o)
unfolding clone_at
clone_at-Reachable n key w none e r = r
clone_at-Reachable n key w (some zero) e r = r
clone_at-Reachable n key w (some (suc m)) e r = moved r (clones key m e)

let_go_at-Reachable :
    (n key : ℕ) (w : World) (o : Option ℕ)
    → handles w.streams key ≡ o
    → Reachable n w
    → Reachable n (let_go_at key w o)
unfolding let_go_at
let_go_at-Reachable n key w none e r = r
let_go_at-Reachable n key w (some zero) e r = r
let_go_at-Reachable n key w (some (suc zero)) e r =
    moved (moved r (releases key 0 e)) (drops key (handles-set_self key 0 1 w.streams e))
let_go_at-Reachable n key w (some (suc (suc m))) e r = moved r (releases key (suc m) e)

pub let_go-Reachable : (n key : ℕ) (w : World) → Reachable n w → Reachable n (let_go key w)
unfolding let_go
let_go-Reachable n key w r = let_go_at-Reachable n key w (handles w.streams key) refl r

count-Lacks : (key : ℕ) (ks : List ℕ) → Lacks key ks → count key ks ≡ 0
unfolding count
count-Lacks key [] h = refl
count-Lacks key (k ∷ ks) h = ground (arith, h.0, count-Lacks key ks h.1)

pub count-keys :
    (key n : ℕ) (streams : Streams)
    → handles streams key ≡ some n
    → IsDistinct (keys streams)
    → count key (keys streams) ≡ 1
unfolding count handles
count-keys key n [] e d = cc
count-keys key n ((k, m) ∷ streams) e d = elim (Bool-cases (k == key)) [
  | inl here ↦
      let same : k ≡ key = ground arith in
      let others = count-Lacks key (keys streams) (subst (λ j. Lacks j (keys streams)) same d.0) in
      ground (arith, others)
  | inr there ↦ ground (arith, count-keys key n streams (rw there at e) d.1)
]

pub upgrade-held :
    (streams : Streams) (key : ℕ) → IsHeld streams key → upgrade streams key ≡ some key
unfolding upgrade
upgrade-held streams key (m, h) = rw (upgrade, h) (ground arith)

pub upgrade-name : (streams : Streams) (key : ℕ) {k : ℕ} → upgrade streams key ≡ some k → key ≡ k
unfolding upgrade
upgrade-name streams key {k} e = elim (Option-cases (handles streams key)) [
  | inl absent ↦ let bad : none ≡ some k = rw (upgrade, absent) at e in cc
  | inr (n, there) ↦
      let found : (if n == 0 then none else some key) ≡ some k = rw (upgrade, there) at e in
      elim (Bool-cases (n == 0)) [
        | inl gone ↦ let bad : none ≡ some k = rw gone at found in cc
        | inr held ↦ some-injective key k (rw held at found)
      ]
]

-- ===== src/Router/Routes/Order.antt =====
-- The order of routes does not matter when no two of them have the same path and method.
use mathlib.Core.List.{Permᴰ}
use mathlib.Core.List.Permᴰ.{nil, cons, swap, trans}
use mathlib.Core.Path.{subst}
use wruster.Base.{
  ℕ, zero, suc, ◌≡◌, refl, sym, ap, ◌∙◌, inl, inr, Bool, true, false, ◌&&◌, ◌||◌, some, List, [],
  ◌∷◌, Bytes, All, equal, equal_iff, ◌==◌, if◌then◌else◌, arith, Bool-cases, Option-cases, take,
  length,
}
use wruster.Http.Method.{HttpMethod, discriminant}
use wruster.Router.Routes.Spec.{Route, is_registered, action_of, nearest, dispatch}

module _ {H : Type 0} where
  abbrev pub fits : Route H → Bytes → HttpMethod → Bool
  fits e path method = equal e.path path && discriminant e.method == discriminant method

  -- No two routes have the same path and method.
  abbrev pub IsApart : List (Route H) → Type 0
  IsApart [] = Unit
  IsApart (e ∷ es) = All (λ f. fits e f.path f.method ≡ false) es × IsApart es

  fits_both :
      (e f : Route H) (path : Bytes) (method : HttpMethod)
      → fits e path method ≡ true
      → fits f path method ≡ true
      → fits e f.path f.method ≡ true
  fits_both e f path method he hf =
      ground (arith, equal_iff e.path path, equal_iff f.path path, equal_iff e.path f.path)

  fits_comm : (e f : Route H) → fits e f.path f.method ≡ false → fits f e.path e.method ≡ false
  fits_comm e f h = ground (arith, equal_iff e.path f.path, equal_iff f.path e.path)

  All-Perm : (P : Route H → Type 0) {es fs : List (Route H)} → Permᴰ es fs → All P es → All P fs
  All-Perm P nil h = h
  All-Perm P (cons same perm) h = (subst P same h.0, All-Perm P perm h.1)
  All-Perm P (swap first second) h = (subst P second h.1.0, (subst P first h.0, h.1.1))
  All-Perm P (trans one two) h = All-Perm P two (All-Perm P one h)

  Perm-IsApart : {es fs : List (Route H)} → Permᴰ es fs → IsApart es → IsApart fs
  Perm-IsApart nil h = h
  Perm-IsApart (cons {l₂ = fs} same perm) h = (
    subst (λ e. All (λ f. fits e f.path f.method ≡ false) fs) same (All-Perm _ perm h.0),
    Perm-IsApart perm h.1,
  )
  Perm-IsApart (swap {a} {b} {b' = b'} {l = l} first second) ((ab, al), (bl, rest)) =
      subst (λ x. IsApart (x ∷ b' ∷ l)) second
        (subst (λ x. IsApart (b ∷ x ∷ l)) first ((fits_comm a b ab, bl), (al, rest)))
  Perm-IsApart (trans one two) h = Perm-IsApart two (Perm-IsApart one h)

  -- What a list of routes says of a path, and of a path and a method.
  abbrev Agree : List (Route H) → List (Route H) → Type 0
  Agree es fs =
      (path : Bytes)
      → (is_registered es path ≡ is_registered fs path)
        × ((method : HttpMethod) → action_of es path method ≡ action_of fs path method)

  swapped :
      (a b : Route H) (l : List (Route H)) → IsApart (a ∷ b ∷ l) → Agree (a ∷ b ∷ l) (b ∷ a ∷ l)
  unfolding is_registered action_of
  swapped a b l ((ab, al), rest) path = (
    ground arith,
    λ method. elim (Bool-cases (fits a path method)) [
      | inr other ↦ rw other
      | inl mine ↦ elim (Bool-cases (fits b path method)) [
        | inr other ↦ rw (mine, other)
        | inl yours ↦ absurd (ground (arith, ab, fits_both a b path method mine yours))
      ]
    ],
  )

  Perm-Agree : {es fs : List (Route H)} → Permᴰ es fs → IsApart es → Agree es fs
  unfolding is_registered action_of
  Perm-Agree nil h = λ path. (refl, λ method. refl)
  Perm-Agree (cons {a} {b} {l₁} {l₂} same perm) h =
      subst (λ x. Agree (a ∷ l₁) (x ∷ l₂)) same
        (λ path.
          let (there, acts) = Perm-Agree perm h.1 path in
          (
            ap (λ r. equal a.path path || r) there,
            λ method. ap (λ r. if fits a path method then some a.action else r) (acts method),
          ))
  Perm-Agree (swap {a} {b} {b' = b'} {l = l} first second) h =
      subst (λ x. Agree (a ∷ b ∷ l) (x ∷ b' ∷ l)) second
        (subst (λ x. Agree (a ∷ b ∷ l) (b ∷ x ∷ l)) first (swapped a b l h))
  Perm-Agree (trans one two) h = λ path.
      let (there, acts) = Perm-Agree one h path in
      let (there', acts') = Perm-Agree two (Perm-IsApart one h) path in
      (there ∙ there', λ method. acts method ∙ acts' method)

  nearest-Agree :
      (es fs : List (Route H)) (n : ℕ) (path : Bytes)
      → Agree es fs
      → nearest es n path ≡ nearest fs n path
  unfolding nearest
  nearest-Agree es fs zero path h = refl
  nearest-Agree es fs (suc n) path h = rw ((h (take (suc n) path)).0, nearest-Agree es fs n path h)

  -- If no two routes have the same path and method, the routes in another order dispatch alike.
  pub dispatch-Perm :
      {es fs : List (Route H)} (path : Bytes) (method : HttpMethod)
      → Permᴰ es fs
      → IsApart es
      → dispatch es path method ≡ dispatch fs path method
  unfolding dispatch
  dispatch-Perm {es} {fs} path method perm h =
      let agree = Perm-Agree perm h in
      let near = nearest-Agree es fs (length path) path agree in
      elim (Option-cases (nearest es (length path) path)) [
        | inl absent ↦ rw (dispatch, sym near, absent)
        | inr (p, found) ↦ rw (dispatch, sym near, found) ((agree p).1 method)
      ]

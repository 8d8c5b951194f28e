-- ===== src/Router/Routes/Spec.antt =====
-- What a router promises: the routes that were added, as a list with the newest first.
use wruster.Base.{
  ℕ, zero, suc, Bool, false, ◌&&◌, ◌||◌, Option, none, some, List, [], ◌∷◌, Bytes, equal, ◌==◌,
  if◌then◌else◌, take, length,
}
use wruster.Http.Method.{HttpMethod, discriminant}
use wruster.Router.Routes.{Router, new, add}

pub record Route (H : Type 0) : Type 0 where
  pub path : Bytes
  pub method : HttpMethod
  pub action : H

module _ {H : Type 0} where
  -- The router after the routes were added, the last of the list first.
  unfoldable pub build : List (Route H) → Option (Router H)
  build [] = some new
  build (e ∷ es) = elim (build es) [ none ↦ none | some r ↦ add r e.path e.method e.action ]

  unfoldable pub is_registered : List (Route H) → Bytes → Bool
  is_registered [] path = false
  is_registered (e ∷ es) path = equal e.path path || is_registered es path

  -- The newest action for the path and the method.
  unfoldable pub action_of : List (Route H) → Bytes → HttpMethod → Option H
  action_of [] path method = none
  action_of (e ∷ es) path method =
      if equal e.path path && discriminant e.method == discriminant method
      then some e.action
      else action_of es path method

  -- The longest registered prefix of at most `n` bytes.
  unfoldable pub nearest : List (Route H) → ℕ → Bytes → Option Bytes
  nearest es zero path = none
  nearest es (suc n) path =
      if is_registered es (take (suc n) path) then some (take (suc n) path) else nearest es n path

  -- The longest registered prefix decides, whatever the method.
  unfoldable pub dispatch : List (Route H) → Bytes → HttpMethod → Option H
  dispatch es path method = elim (nearest es (length path) path) [
    | none ↦ none
    | some p ↦ action_of es p method
  ]

-- ===== src/Router/Routes.antt =====
-- wruster/src/router/mod.rs: `Router` and `MethodHandlers`, over the type `H` of handlers. The cells
-- that the source borrows from are values here. `none` from `add` is the trie's failed assertion
-- that a route is not empty.
pub mod Spec
pub mod Order
pub mod Refine
use wruster.Base.{ℕ, ◌+◌, Option, none, some, List, Bytes, get_elem?, set, replicate}
use wruster.Http.Method.{HttpMethod, discriminant, get_last}
use wruster.Router.Trie
use wruster.Router.Trie.{Trie, add_value, get_value, move_value_out, get_value_prefix}

pub record MethodHandlers (H : Type 0) : Type 0 where
  pub actions : List (Option H)

pub record Router (H : Type 0) : Type 0 where
  pub routes : Trie (MethodHandlers H)

module _ {H : Type 0} where
  unfoldable pub new_handlers : MethodHandlers H
  new_handlers = record { actions = replicate (discriminant get_last + 1) none }

  -- actions[method as usize]; every `MethodHandlers` has a place for each method.
  unfoldable pub get_action : MethodHandlers H → HttpMethod → Option H
  get_action h method = elim (get_elem? h.actions (discriminant method)) [
    | none ↦ none
    | some a ↦ a
  ]

  unfoldable pub set_action : MethodHandlers H → HttpMethod → H → MethodHandlers H
  set_action h method action = record {
    actions = set h.actions (discriminant method) (some action);
  }

  unfoldable pub unwrap_or_new : Option (MethodHandlers H) → MethodHandlers H
  unwrap_or_new none = new_handlers
  unwrap_or_new (some h) = h

  unfoldable pub new : Router H
  new = record { routes = Trie.new }

  unfoldable pub add : Router H → Bytes → HttpMethod → H → Option (Router H)
  add r route method action =
      let (routes, moved) = move_value_out r.routes route in
      let handlers = set_action (unwrap_or_new moved) method action in
      elim (add_value routes route handlers) [
        | none ↦ none
        | some routes' ↦ some (record { routes = routes' })
      ]

  unfoldable pub get : Router H → Bytes → HttpMethod → Option H
  get r route method = elim (get_value r.routes route) [
    | none ↦ none
    | some actions ↦ get_action actions method
  ]

  unfoldable pub get_prefix : Router H → Bytes → HttpMethod → Option H
  get_prefix r route method = elim (get_value_prefix r.routes route) [
    | none ↦ none
    | some actions ↦ get_action actions method
  ]

-- ===== src/Server/Conversation/Dispatch.antt =====
-- wruster/src/lib.rs: which action a request is given to, by the routes that were added.
use mathlib.Core.Option
use wruster.Base.{
  ◌≡◌, refl, sym, ◌∙◌, ◌⊎◌, inl, inr, Option, none, some, List, [], Bytes, All, if◌then◌else◌,
  Option-cases, arith,
}
use wruster.Http.Body.{Mime}
use wruster.Http.Request.{Request}
use wruster.Http.Response
use wruster.Http.Response.{Response}
use wruster.Http.Status.{internal_server_error, not_found}
use wruster.Router.Normalize.Laws.{normalize-resolve, normalize-normalize}
use wruster.Router.Normalize.Resolve.{IsName, resolve, render}
use wruster.Router.Normalize.{has_root, split, normalize}
use wruster.Router.Routes.Refine.{IsRoute, build-dispatch}
use wruster.Router.Routes.Spec.{Route, build, dispatch}
use wruster.Router.Routes.{Router, get_prefix}
use wruster.Server.Conversation.{Handler, call, run_normalized, run_action}

module _ (mime : Mime) where
  open mime use {Media}

  -- The names that a path stands for.
  abbrev pub names : Bytes → Option (List Bytes)
  names uri = if has_root uri then resolve [] (split [] uri) else none

  -- By the list of routes alone: the action of the longest registered prefix of the path that the
  -- request stands for, with that path as the text of the request.
  abbrev pub chosen :
      Request Media → Bytes → Option (Handler Media) → Response Media × Request Media
  chosen request path none = (Response.from_status mime not_found, request)
  chosen request path (some action) = action (record request { uri = path })

  abbrev pub served :
      List (Route (Handler Media))
      → Request Media
      → Option (List Bytes)
      → Response Media × Request Media
  served es request none = (Response.from_status mime internal_server_error, request)
  served es request (some st) = chosen request (render st) (dispatch es (render st) request.method)

  call-chosen :
      (request : Request Media) (path : Bytes) (found : Option (Handler Media))
      → call mime request path found ≡ chosen request path found
  unfolding call
  call-chosen request path none = refl
  call-chosen request path (some action) = refl

  normalize-names : (uri : Bytes) → normalize uri ≡ Option.map render (names uri)
  normalize-names uri = normalize-resolve uri ∙ ground arith

  -- Routes, each with a non-empty path of bytes, give a router with which every request is
  -- answered with "Internal Server Error" if its text does not stand for a list of names, with "Not
  -- Found" if the longest registered prefix of the path of these names has no action for the
  -- method, and else by that action, whose request has that path as its text.
  pub run_action-dispatch :
      (es : List (Route (Handler Media))) (request : Request Media)
      → All IsRoute es
      → (r : Router (Handler Media)) × (build es ≡ some r)
        × (run_action mime r request ≡ served es request (names request.uri))
  unfolding run_action run_normalized
  run_action-dispatch es request h = elim (Option-cases (names request.uri)) [
    | inl refused ↦
        let (r, built, _, _) = build-dispatch es request.uri request.method h in
        (r, built, rw (normalize-names request.uri, refused))
    | inr (st, found) ↦
        let (r, built, _, finds) = build-dispatch es (render st) request.method h in
        (
          r,
          built,
          rw (normalize-names request.uri, found, finds)
              (call-chosen request (render st) (dispatch es (render st) request.method)),
        )
  ]

  -- Whatever the routes are, a request is answered with "Internal Server Error" or "Not Found", or
  -- by an action that the routes have for the method and the path of some list of names, each of them
  -- not empty, without a separator and neither "." nor "..": the request that the action gets has that
  -- path as its text.
  pub run_action-IsName :
      (routes : Router (Handler Media)) (request : Request Media)
      → (run_action mime routes request
          ≡ (Response.from_status mime internal_server_error, request))
        ⊎ ((run_action mime routes request ≡ (Response.from_status mime not_found, request))
            ⊎ ((st : List Bytes) × (action : Handler Media) × All IsName st
                × (get_prefix routes (render st) request.method ≡ some action)
                × (run_action mime routes request ≡ action (record request { uri = render st }))))
  unfolding run_action run_normalized call
  run_action-IsName routes request = elim (Option-cases (normalize request.uri)) [
    | inl refused ↦ inl (rw refused)
    | inr (path, normal) ↦ elim (Option-cases (get_prefix routes path request.method)) [
      | inl missing ↦ inr (inl (rw (normal, missing)))
      | inr (action, found) ↦
          let (st, rendered, named, _) = normalize-normalize request.uri path normal in
          inr (inr (st, action, named, rw (sym rendered, found), rw (normal, found, rendered)))
    ]
  ]

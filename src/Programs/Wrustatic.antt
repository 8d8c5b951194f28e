-- ===== src/Programs/Wrustatic.antt =====
-- wrustatic/src/main.rs: one route, whose handler is `serve_static` behind `log_middleware`.
pub mod Main
use wruster.Base.{
  ℕ, zero, suc, ◌≡◌, ◌∙◌, refl, sym, true, Option, none, some, List, [], ◌∷◌, Bytes, All, arith,
  Bool-cases, inl, inr, if◌then◌else◌, ◌==◌, equal, length, codes, Option-cases,
}
use wruster.Handlers.Confined.{below, serve_static-below}
use wruster.Handlers.{Files, serve_static}
use wruster.Http.Body.{Mime}
use wruster.Http.Method.{HttpMethod, get as get_method, discriminant}
use wruster.Http.Request.{Request}
use wruster.Http.Response
use wruster.Http.Response.{Response}
use wruster.Http.Status.{internal_server_error, not_found}
use wruster.Router.Normalize.Buffer.{has_root-render}
use wruster.Router.Normalize.Laws.{resolve-IsName, split-NoSep}
use wruster.Router.Normalize.Resolve.{IsName, render}
use wruster.Router.Normalize.{sep, has_root, split}
use wruster.Router.Routes.Refine.{IsRoute}
use wruster.Router.Routes.Spec.{Route, build, is_registered, action_of, nearest, dispatch}
use wruster.Router.Routes.{Router}
use wruster.Server.Conversation.Dispatch.{names, run_action-dispatch}
use wruster.Server.Conversation.{Handler, run_action}

-- `log_middleware`, but for the log
unfoldable pub log_middleware : {Media : Type 0} → Handler Media → Handler Media
log_middleware handler request = handler request

-- The routes that `main` adds.
unfoldable pub routes : {Media : Type 0} → Handler Media → List (Route (Handler Media))
routes serve_dir =
    record { path = codes "/"; method = get_method; action = log_middleware serve_dir } ∷ []

pub routes-IsRoute : {Media : Type 0} (serve_dir : Handler Media) → All IsRoute (routes serve_dir)
unfolding routes
routes-IsRoute serve_dir = ground arith

nearest-root :
    {Media : Type 0} (serve_dir : Handler Media) (n : ℕ) (cs : Bytes)
    → nearest (routes serve_dir) (suc n) (sep ∷ cs) ≡ some (sep ∷ [])
unfolding nearest is_registered routes equal
nearest-root serve_dir zero cs = refl
nearest-root serve_dir (suc n) [] = refl
nearest-root serve_dir (suc n) (c ∷ cs) = nearest-root serve_dir n (c ∷ cs)

-- The route is found for every path from the root.
pub dispatch-root :
    {Media : Type 0} (serve_dir : Handler Media) (path : Bytes) (method : HttpMethod)
    → has_root path ≡ true
    → dispatch (routes serve_dir) path method ≡ (
        if discriminant get_method == discriminant method
        then some (log_middleware serve_dir)
        else none)
unfolding dispatch has_root nearest log_middleware is_registered routes equal
dispatch-root serve_dir [] method h = cc
dispatch-root serve_dir (c ∷ cs) method h =
    let root : c ≡ sep = ground (arith, h) in
    rw (root, nearest-root serve_dir (length cs) cs) (unfold action_of in refl)

names-IsName :
    (mime : Mime) (uri : Bytes) {st : List Bytes} → names mime uri ≡ some st → All IsName st
names-IsName mime uri e = elim (Bool-cases (has_root uri)) [
  | inr relative ↦ cc (rw relative at e)
  | inl rooted ↦ resolve-IsName [] (split [] uri) tt (split-NoSep uri [] tt) (rw rooted at e)
]

module _ (mime : Mime) (files : Files mime.Media) where
  open mime use {Media}

  -- The answer to a method and a list of names.
  abbrev pub expected : List Bytes → Option (List Bytes) → HttpMethod → Option (Response Media)
  expected base none method = some (Response.from_status mime internal_server_error)
  expected base (some st) method =
      if discriminant get_method == discriminant method
      then below mime files base st
      else some (Response.from_status mime not_found)

  -- A server that runs the program's router answers a GET by the file below the directory at the names
  -- that the text of the request stands for, another method with "Not Found", and a text that stands
  -- for no names with "Internal Server Error", if the directory has a canonical path and the handler
  -- answers as `serve_static` does, without a panic.
  pub run_action-expected :
      (dir : Bytes) (base : List Bytes) (serve_dir : Handler Media) (request : Request Media)
      → files.canonicalize dir ≡ some (render base)
      → All IsName base
      → ((q : Request Media) → serve_static mime files dir q ≡ some (serve_dir q).0)
      → (r : Router (Handler Media)) × (build (routes serve_dir) ≡ some r)
        × (some (run_action mime r request).0
            ≡ expected base (names mime request.uri) request.method)
  run_action-expected dir base serve_dir request canonical named serves =
      let (r, built, runs) =
        run_action-dispatch mime (routes serve_dir) request (routes-IsRoute serve_dir) in
      (
        r,
        built,
        rw runs (elim (Option-cases (names mime request.uri)) [
          | inl refused ↦ rw refused
          | inr (st, found) ↦
              let hs = names-IsName mime request.uri found in
              let file =
                serve_static-below mime files dir base st (record request { uri = render st })
                  canonical named hs refl in
              rw (found, dispatch-root serve_dir (render st) request.method (has_root-render st))
                (elim (Bool-cases (discriminant get_method == discriminant request.method)) [
                  | inl same ↦ rw same (
                      unfold log_middleware in
                      (sym (serves (record request { uri = render st })) ∙ file))
                  | inr other ↦ rw other
                ])
        ]),
      )

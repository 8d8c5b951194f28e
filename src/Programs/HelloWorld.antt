-- ===== src/Programs/HelloWorld.antt =====
-- wruster/examples/hello_world.rs: one route, whose handler answers with a text. The log is left out.
use wruster.Base.{
  ◌≡◌, refl, Bool-cases, inl, inr, Option, none, some, List, [], ◌∷◌, Bytes, if◌then◌else◌, ◌==◌,
  codes, Option-cases,
}
use wruster.Http.Body.{Mime}
use wruster.Http.Io.{IoResult}
use wruster.Http.Method.{HttpMethod, get as get_method, discriminant}
use wruster.Http.Request.{Request}
use wruster.Http.Response
use wruster.Http.Response.{Response}
use wruster.Http.Status.{internal_server_error, not_found}
use wruster.Programs.Exit.{Exit, serve}
use wruster.Programs.Wrustatic
use wruster.Programs.Wrustatic.{log_middleware, routes-IsRoute, dispatch-root}
use wruster.Router.Normalize.Buffer.{has_root-render}
use wruster.Router.Normalize.Resolve.{render}
use wruster.Router.Routes.Spec.{Route, build}
use wruster.Router.Routes.{Router}
use wruster.Server.Conversation.Dispatch.{names, run_action-dispatch}
use wruster.Server.Conversation.{Handler, run_action}
use wruster.Server.Lifecycle
use wruster.Server.Lifecycle.{Joined}

-- `main`, with the outcomes of the binding and of the accepting thread.
unfoldable pub main : IoResult (Unit {0}) → Joined → Exit
main bound joined = serve (codes "127.0.0.1:8082") bound joined Lifecycle.new

module _ (mime : Mime) where
  open mime use {Media}

  unfoldable handler : Handler Media
  handler request = (Response.from_str mime (codes "hello world"), request)

  -- The routes that `main` adds.
  unfoldable routes : List (Route (Handler Media))
  routes = record { path = codes "/"; method = get_method; action = handler } ∷ []

  -- The answer to a method and a list of names.
  abbrev greeted : Option (List Bytes) → HttpMethod → Response Media
  greeted none method = Response.from_status mime internal_server_error
  greeted (some st) method =
      if discriminant get_method == discriminant method
      then Response.from_str mime (codes "hello world")
      else Response.from_status mime not_found

  routes-as_static : routes ≡ Wrustatic.routes handler
  unfolding routes Wrustatic.routes log_middleware
  routes-as_static = refl

  -- A server that runs the routes of the example answers a GET with the text, another method with "Not
  -- Found", and a text that stands for no names with "Internal Server Error".
  run_action-greeted :
      (request : Request Media)
      → (r : Router (Handler Media)) × (build routes ≡ some r)
        × ((run_action mime r request).0 ≡ greeted (names mime request.uri) request.method)
  run_action-greeted request =
      let (r, built, runs) =
        run_action-dispatch mime (Wrustatic.routes handler) request (routes-IsRoute handler) in
      (
        r,
        rw routes-as_static built,
        rw runs (elim (Option-cases (names mime request.uri)) [
          | inl refused ↦ rw refused
          | inr (st, found) ↦
              rw (found, dispatch-root handler (render st) request.method (has_root-render st))
                (elim (Bool-cases (discriminant get_method == discriminant request.method)) [
                  | inl same ↦ rw same (unfold handler in unfold log_middleware in refl)
                  | inr other ↦ rw other
                ])
        ]),
      )

-- ===== src/Programs/Wrusdummy/Configured.antt =====
-- wrusdummy/src/main.rs: the program answers as its configuration says.
use mathlib.Core.List.Permᴰ
use mathlib.Core.List.{Permᴰ}
use mathlib.Core.Path.{subst}
use wruster.Base.{
  Option, none, ap, ℕ, ◌≡◌, ◌≢◌, ◌∙◌, refl, sym, some, List, [], ◌∷◌, ◌++◌, Bytes, IsByte, All, map,
}
use wruster.Http.Body.{Mime}
use wruster.Http.Method
use wruster.Http.Method.{HttpMethod, get as get_method}
use wruster.Http.Request.{Request}
use wruster.Http.Status.{from_usize}
use wruster.Programs.Wrusdummy.{ConfigRoute, serve_route, add_parsed, add_routes}
use wruster.Programs.Wrustatic.{log_middleware}
use wruster.Router.Routes
use wruster.Router.Normalize.Resolve.{render}
use wruster.Router.Routes.Order.{IsApart, dispatch-Perm}
use wruster.Router.Routes.Refine.{IsRoute, build-dispatch}
use wruster.Router.Routes.Spec.{Route, build}
use wruster.Router.Routes.{Router}
use wruster.Server.Conversation.Dispatch.{names, served, run_action-dispatch}
use wruster.Server.Conversation.{Handler, run_action}

module _ (mime : Mime) where
  open mime use {Media, print, parse-print}

  -- What a route of a configuration means.
  pub record Meaning : Type 0 where
    pub path : Bytes
    pub method : HttpMethod
    pub status : ℕ
    pub content : Bytes
    pub content_type : Media

  abbrev pub config_of : Meaning → ConfigRoute
  config_of m = record {
    path = m.path;
    method = Method.to_string m.method;
    response = record {
      status = m.status;
      content = m.content;
      content_type = print m.content_type;
    };
  }

  abbrev pub route_of : Meaning → Route (Handler Media)
  route_of m = record {
    path = m.path;
    method = m.method;
    action = log_middleware (serve_route mime m.content m.content_type (from_usize m.status));
  }

  -- The routes, the last of the configuration first.
  abbrev pub newest_first :
      List Meaning → List (Route (Handler Media)) → List (Route (Handler Media))
  newest_first [] es = es
  newest_first (m ∷ ms) es = newest_first ms (route_of m ∷ es)

  -- A path that a router takes.
  abbrev pub IsPath : Meaning → Type 0
  IsPath m = (m.path ≢ []) × All IsByte m.path

  add_parsed-route :
      (m : Meaning) (router : Router (Handler Media))
      → add_parsed mime
          (config_of m)
          (Method.from_str (Method.to_string m.method))
          (mime.parse (print m.content_type))
          router
        ≡ Routes.add router m.path m.method (route_of m).action
  unfolding add_parsed
  add_parsed-route m router = rw (Method.from_str-to_string m.method, parse-print m.content_type)

  newest_first-IsRoute :
      (ms : List Meaning) (es : List (Route (Handler Media)))
      → All IsPath ms
      → All IsRoute es
      → All IsRoute (newest_first ms es)
  newest_first-IsRoute [] es h hs = hs
  newest_first-IsRoute (m ∷ ms) es h hs = newest_first-IsRoute ms (route_of m ∷ es) h.1 (h.0, hs)

  add_routes-build :
      (ms : List Meaning) (es : List (Route (Handler Media))) (r r' : Router (Handler Media))
      → All IsPath ms
      → All IsRoute es
      → build es ≡ some r
      → build (newest_first ms es) ≡ some r'
      → add_routes mime (map config_of ms) r ≡ some r'
  unfolding add_routes build log_middleware
  add_routes-build [] es r r' h hs built built' = sym built ∙ built'
  add_routes-build (m ∷ ms) es r r' h hs built built' =
      let (r1, built1, _, _) = build-dispatch (route_of m ∷ es) [] get_method (h.0, hs) in
      let added : Routes.add r m.path m.method (route_of m).action ≡ some r1 =
        rw (built, build) at built1 in
      rw (add_routes, add_parsed-route m r, added)
        (add_routes-build ms (route_of m ∷ es) r1 r' h.1 (h.0, hs) built1 built')

  newest_first-Perm :
      (ms : List Meaning) (es : List (Route (Handler Media)))
      → Permᴰ (newest_first ms es) (map route_of ms ++ es)
  newest_first-Perm [] es = Permᴰ.refl es
  newest_first-Perm (m ∷ ms) es =
      Permᴰ.trans (newest_first-Perm ms (route_of m ∷ es))
        (Permᴰ.middle (route_of m) (map route_of ms) es)

  routes-Perm :
      {ms order : List Meaning} → Permᴰ ms order → Permᴰ (map route_of ms) (map route_of order)
  routes-Perm Permᴰ.nil = Permᴰ.nil
  routes-Perm (Permᴰ.cons same perm) = Permᴰ.cons (ap route_of same) (routes-Perm perm)
  routes-Perm (Permᴰ.swap first second) = Permᴰ.swap (ap route_of first) (ap route_of second)
  routes-Perm (Permᴰ.trans one two) = Permᴰ.trans (routes-Perm one) (routes-Perm two)

  -- The routes of a configuration, as the router has them after an order of iteration.
  order-Perm :
      {ms order : List Meaning} → Permᴰ ms order → Permᴰ (map route_of ms) (newest_first order [])
  order-Perm {order = order} perm = Permᴰ.trans (routes-Perm perm) (
      Permᴰ.symm (Permᴰ.trans (newest_first-Perm order []) (Permᴰ.append-nil (map route_of order))))

  All-IsPath : {ms order : List Meaning} → Permᴰ ms order → All IsPath ms → All IsPath order
  All-IsPath Permᴰ.nil h = h
  All-IsPath (Permᴰ.cons same perm) h = (subst IsPath same h.0, All-IsPath perm h.1)
  All-IsPath (Permᴰ.swap first second) h =
      (subst IsPath second h.1.0, (subst IsPath first h.0, h.1.1))
  All-IsPath (Permᴰ.trans one two) h = All-IsPath two (All-IsPath one h)

  served-Perm :
      {es fs : List (Route (Handler Media))} (request : Request Media) (st : Option (List Bytes))
      → Permᴰ es fs
      → IsApart es
      → served mime fs request st ≡ served mime es request st
  served-Perm request none perm h = refl
  served-Perm request (some st) perm h = rw (dispatch-Perm (render st) request.method perm h)

  -- A configuration with non-empty paths of bytes, whose methods and media types are written as they
  -- are printed, and no two of whose routes have the same path and method, gives a router without an
  -- exit or a panic, and a request is answered by it as the routes say. In which order the map of the
  -- routes is iterated does not matter.
  pub run_action-configured :
      (ms order : List Meaning) (request : Request Media)
      → Permᴰ ms order
      → All IsPath ms
      → IsApart (map route_of ms)
      → (router : Router (Handler Media)) × (add_routes mime (map config_of order) Routes.new
          ≡ some router)
        × (run_action mime router request
            ≡ served mime (map route_of ms) request (names mime request.uri))
  run_action-configured ms order request perm h apart =
      let paths = All-IsPath perm h in
      let (r, built, runs) =
        run_action-dispatch mime (newest_first order []) request
          (newest_first-IsRoute order [] paths tt) in
      (
        r,
        add_routes-build order [] Routes.new r paths tt (unfold build in refl) built,
        runs ∙ served-Perm request (names mime request.uri) (order-Perm perm) apart,
      )

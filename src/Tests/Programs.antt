-- ===== src/Tests/Programs.antt =====
-- The program wrustatic at a small file system.
use mathlib.Core.List.Permᴰ.{swap}
use wruster.Base.{
  map, equal, ◌≡◌, refl, Option, none, some, List, [], ◌∷◌, Bytes, All, arith, codes, inl, inr,
  Option-cases,
}
use wruster.Handlers
use wruster.Handlers.Confined.{serve_static-below}
use wruster.Handlers.{Files, serve_static, serve_relative, serve_path, relative, file_response}
use wruster.Http.Error.{ok}
use wruster.Http.Request.{Request}
use wruster.Http.Response
use wruster.Http.Response.{Response}
use wruster.Http.Status.{internal_server_error}
use wruster.Http.Method.{get as get_method}
use wruster.Http.Status.{from_usize}
use wruster.Programs.Wrusdummy.Configured.{Meaning, config_of, run_action-configured}
use wruster.Programs.Wrusdummy.{add_routes, serve_route}
use wruster.Router.Normalize.{has_root, split}
use wruster.Router.Routes
use wruster.Router.Routes.Spec.{action_of, dispatch, nearest, is_registered}
use wruster.Programs.Wrustatic.{log_middleware, routes, expected, run_action-expected}
use wruster.Router.Normalize.Resolve.{IsName, render, resolve, read_part, joined}
use wruster.Router.Routes.Spec.{build}
use wruster.Router.Routes.{Router}
use wruster.Server.Conversation.Dispatch.{names}
use wruster.Server.Conversation.{Handler, run_action}
use wruster.Tests.Messages.{mime, input, request}

abbrev files : Files Bytes
files = record {
  canonicalize = λ dir. some (codes "/srv");
  metadata = λ path. ok 3;
  open_file = λ path. ok (input (codes "xyz"));
  guess = λ path. codes "text/plain";
}

abbrev srv : List Bytes
srv = codes "srv" ∷ []

srv-IsName : All IsName srv
srv-IsName = (
  record {
    ne_nil = ground arith;
    no_sep = ground arith;
    ne_dot = ground arith;
    ne_dots = ground arith;
  },
  tt,
)

srv-canonical : files.canonicalize (codes ".") ≡ some (render srv)
unfolding render joined
srv-canonical = refl

serve_static-below_example :
    serve_static mime files (codes ".") request
    ≡ some (file_response mime 3 (codes "text/plain") (input (codes "xyz")))
unfolding serve_path Handlers.found Handlers.opened
serve_static-below_example =
    serve_static-below mime files (codes ".") srv (codes "a" ∷ []) request srv-canonical srv-IsName
      (
        record {
          ne_nil = ground arith;
          no_sep = ground arith;
          ne_dot = ground arith;
          ne_dots = ground arith;
        },
        tt,
      )
      (unfold render joined in refl)

abbrev or_error : Option (Response Bytes) → Response Bytes
or_error none = Response.from_status mime internal_server_error
or_error (some r) = r

abbrev serve_dir : Handler Bytes
serve_dir q = (or_error (serve_static mime files (codes ".") q), q)

serve_dir-serves :
    (q : Request Bytes) → serve_static mime files (codes ".") q ≡ some (serve_dir q).0
unfolding serve_static serve_relative serve_path Handlers.found Handlers.opened
serve_dir-serves q = elim (Option-cases (relative q.uri)) [
  | inl root ↦ rw root
  | inr (uri, below_root) ↦ rw below_root
]

run_action-expected_example :
    (r : Router (Handler Bytes)) × (build (routes serve_dir) ≡ some r)
    × (some (run_action mime r request).0
        ≡ expected mime files srv (names mime request.uri) request.method)
run_action-expected_example =
    run_action-expected mime files (codes ".") srv serve_dir request srv-canonical srv-IsName
      serve_dir-serves

abbrev ping : Meaning mime
ping = record {
  path = codes "/";
  method = get_method;
  status = 404;
  content = codes "no";
  content_type = codes "text/plain";
}

abbrev pong : Meaning mime
pong = record {
  path = codes "/a";
  method = get_method;
  status = 200;
  content = codes "yes";
  content_type = codes "text/plain";
}

-- The second route is added first.
run_action-configured_example :
    (router : Router (Handler Bytes)) × (add_routes mime
        (map (config_of mime) (pong ∷ ping ∷ []))
        Routes.new
      ≡ some router)
    × (run_action mime router request
        ≡ serve_route mime
            (codes "yes")
            (codes "text/plain")
            (from_usize 200)
            (record request { uri = codes "/a" }))
unfolding dispatch nearest is_registered action_of equal has_root split resolve read_part render
    joined log_middleware
run_action-configured_example =
    run_action-configured mime (ping ∷ pong ∷ []) (pong ∷ ping ∷ []) request (swap refl refl)
      (ground arith) (ground arith)

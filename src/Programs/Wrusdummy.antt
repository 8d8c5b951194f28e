-- ===== src/Programs/Wrusdummy.antt =====
-- wrusdummy/src/main.rs: the routes of a configuration, with their responses. The configuration is a
-- list, in the order in which the hash map of the source is iterated.
pub mod Configured
pub mod Main
use wruster.Base.{ℕ, Option, none, some, List, [], ◌∷◌, Bytes, length}
use wruster.Http.Body.{Mime}
use wruster.Http.Method
use wruster.Http.Method.{HttpMethod}
use wruster.Http.Response
use wruster.Http.Response.{Response}
use wruster.Http.Status.{StatusCode, from_usize}
use wruster.Programs.Wrustatic.{log_middleware}
use wruster.Router.Routes
use wruster.Router.Routes.{Router}
use wruster.Server.Conversation.{Handler}

-- `config::Response` and `config::Route`
pub record ConfigResponse : Type 0 where
  pub status : ℕ
  pub content : Bytes
  pub content_type : Bytes

pub record ConfigRoute : Type 0 where
  pub path : Bytes
  pub method : Bytes
  pub response : ConfigResponse

module _ (mime : Mime) where
  open mime use {Media, parse}

  unfoldable pub serve_route : Bytes → Media → StatusCode → Handler Media
  serve_route content content_type status request = (
    record (Response.from_content mime (record { unread = content; ending = none }) (length content)
        content_type) { status = status },
    request,
  )

  unfoldable pub add_parsed :
      ConfigRoute
      → Option HttpMethod
      → Option Media
      → Router (Handler Media)
      → Option (Router (Handler Media))
  add_parsed route (some method) (some content_type) router = Routes.add router route.path method (
      log_middleware
        (serve_route route.response.content content_type (from_usize route.response.status)))
  add_parsed route _ _ router = none

  -- The loop of `main` over the routes; `none` is the exit of the program on a method or a media type
  -- that does not parse, and the panic on a path that is empty.
  unfoldable pub add_routes :
      List ConfigRoute → Router (Handler Media) → Option (Router (Handler Media))
  add_routes [] router = some router
  add_routes (route ∷ config) router =
      elim (add_parsed route (Method.from_str route.method) (parse route.response.content_type)
        router) [ none ↦ none | some next ↦ add_routes config next ]

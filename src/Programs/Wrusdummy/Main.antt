-- ===== src/Programs/Wrusdummy/Main.antt =====
-- wrusdummy/src/main.rs: `main` and the reading of its configuration. The files and the crate
-- serde_yaml are a parameter; the hash map of the configuration is a list, in the order of iteration.
use wruster.Base.{◌*◌, none, some, List, [], ◌∷◌, Bytes, map}
use wruster.Http.Body.{Mime}
use wruster.Http.Error.{invalid_data, Result, map_err, ◌>>=◌}
use wruster.Http.Io.{IoResult}
use wruster.Programs.Exit.{Exit, fails, or_exit, serve}
use wruster.Programs.Wrusdummy.{ConfigRoute, add_routes}
use wruster.Router.Routes
use wruster.Server.Lifecycle.{Timeouts, Joined, from_timeouts}
use wruster.Streams.Timeout.{second}

-- An error of the crate is its text.
pub record Yaml : Type 0 where
  pub file_at : Bytes → IoResult Bytes
  pub from_reader : Bytes → Result Bytes (List (Bytes × ConfigRoute))

-- `Routes::from_file`
unfoldable pub from_file : Yaml → Bytes → IoResult (List (Bytes × ConfigRoute))
from_file yaml path = yaml.file_at path >>= λ content.
    map_err (λ message. record { kind = invalid_data; message = message })
      (yaml.from_reader content)

abbrev pub timeouts : Timeouts
timeouts = record { read_request_timeout = 5 * second; write_response_timeout = 5 * second }

module _ (mime : Mime) where
  -- What follows the routes, if all of them can be added.
  unfoldable pub with_routes : List (Bytes × ConfigRoute) → Exit → Exit
  with_routes config next =
      elim (add_routes mime (map (λ (name, route). route) config) Routes.new) [
        | none ↦ fails
        | some router ↦ next
      ]

  -- `main`, with its arguments, the name of the program first, and the outcomes of the binding and of
  -- the accepting thread.
  unfoldable pub main : Yaml → IoResult (Unit {0}) → Joined → List Bytes → Exit
  main yaml bound joined (program ∷ addr ∷ cfg_file ∷ []) =
      or_exit (from_file yaml cfg_file)
        (λ config. with_routes config (serve addr bound joined (from_timeouts timeouts)))
  main yaml bound joined args = fails

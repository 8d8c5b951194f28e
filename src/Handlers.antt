-- ===== src/Handlers.antt =====
-- wruster_handlers/src/lib.rs: the handlers. The file system and the guess of a media type by the name
-- of a file are a parameter.
pub mod Confined
use wruster.Base.{
  ℕ, Bool, true, false, Option, none, some, [], ◌∷◌, Bytes, ltb, if◌then◌else◌, length, drop,
}
use wruster.Base.Decimal.{decimal}
use wruster.Http.Body
use wruster.Http.Body.{Mime, content_type_name}
use wruster.Http.Error.{ErrorKind, not_found, IoError, Result, ok, err, panic, running}
use wruster.Http.Headers
use wruster.Http.Io.{Input, IoResult}
use wruster.Http.Request.{Request, content_length_header}
use wruster.Http.Response
use wruster.Http.Response.{Response}
use wruster.Http.Status
use wruster.Http.Status.{internal_server_error}
use wruster.Router.Normalize.{has_root, push}

-- `Path::canonicalize`, `fs::metadata` as far as the length, `fs::File::open`, and
-- `mime_guess::from_path`.
pub record Files (Media : Type 0) : Type 0 where
  pub canonicalize : Bytes → Option Bytes
  pub metadata : Bytes → IoResult ℕ
  pub open_file : Bytes → IoResult Input
  pub guess : Bytes → Media

-- `starts_with('/')`, and then the rest; `none` is the root alone.
unfoldable pub relative : Bytes → Option Bytes
relative uri =
    if has_root uri then (if ltb (length uri) 2 then none else some (drop 1 uri)) else some uri

module _ (mime : Mime) where
  open mime use {Media, print}

  unfoldable pub failed_kind : ErrorKind → Response Media
  failed_kind not_found = Response.from_status mime Status.not_found
  failed_kind _ = Response.from_status mime internal_server_error

  unfoldable pub file_response : ℕ → Media → Input → Response Media
  file_response len media content = record {
    status = Status.ok;
    headers =
        Headers.add (Headers.add Headers.new (content_length_header (decimal len)))
          (record { name = content_type_name; value = print media });
    body = some (Body.new mime (some media) len content);
  }

  module _ (files : Files Media) where
    -- A call that neither panics nor loops gives a response, and one that fails an error.
    unfoldable pub opened : Bytes → ℕ → IoResult Input → Option (Response Media)
    opened path len (ok content) = some (file_response len (files.guess path) content)
    opened path len (err e) = some (failed_kind e.kind)
    opened path len panic = none
    opened path len running = none

    unfoldable pub found : Bytes → IoResult ℕ → Option (Response Media)
    found path (ok len) = opened path len (files.open_file path)
    found path (err e) = some (failed_kind e.kind)
    found path panic = none
    found path running = none

    -- The response for the file at a path.
    unfoldable pub serve_path : Bytes → Option (Response Media)
    serve_path path = found path (files.metadata path)

    unfoldable pub serve_relative : Bytes → Option Bytes → Option (Response Media)
    serve_relative base none = some (Response.from_status mime Status.not_found)
    serve_relative base (some uri) = serve_path (push base uri)

    -- `serve_static`; `none` is the panic of a directory without a canonical path.
    unfoldable pub serve_static : Bytes → Request Media → Option (Response Media)
    serve_static dir request = elim (files.canonicalize dir) [
      | none ↦ none
      | some base ↦ serve_relative base (relative request.uri)
    ]

-- ===== src/Client/Run.antt =====
-- wruster/src/http/client/mod.rs: `Client` and `ClientResponse`. The lock of the pool is held by each
-- of its operations, and a connection and its clones are one connection.
pub mod Reuse
pub mod Served
use wruster.Base.{ℕ, Bool, true, false, Option, none, some, List, [], ◌∷◌, Bytes}
use wruster.Client.ConnectionPool
use wruster.Client.ConnectionPool.{Pool, PoolResource, insert, drain}
use wruster.Http.Body
use wruster.Http.Body.{Mime, BufWriter, Body}
use wruster.Http.Error.{Result, ok, err, panic, running, of_io, HttpResult, ◌>>=◌, map_err}
use wruster.Http.Io.{Input, Output, IoResult}
use wruster.Http.Request
use wruster.Http.Request.{Request, is_connection_persistent}
use wruster.Http.Response
use wruster.Http.Response.{Response}

-- The network: how a connection is made, whether its handle can be cloned, how it takes what is
-- written and flushed, and what is to be read once these bytes were written.
pub record Network : Type 1 where
  pub Conn : Type 0
  pub connect : Bytes → HttpResult Conn
  pub try_clone : Conn → IoResult (Unit {0})
  pub output : Conn → Output
  pub flush : Conn → Bytes → IoResult (Unit {0})
  pub reply : Conn → Bytes → Input

module _ (mime : Mime) (N : Network) where
  open mime use {Media}
  open N use {Conn}

  pub record ClientResponse : Type 0 where
    pub response : Response Media
    pub conn : Conn
    pub addr : Bytes

  -- What the pool has for the address, or a new connection.
  unfoldable pub resource_or_connect : Bytes → Option (PoolResource Conn) → HttpResult Conn
  resource_or_connect addr none = N.connect addr
  resource_or_connect addr (some conn) = ok conn.resource

  -- The connection that a request is sent on, and the pool without it.
  unfoldable pub connection : Pool Conn → Bytes → Request Media → HttpResult Conn × Pool Conn
  connection pool addr request = elim (is_connection_persistent request) [
    | true ↦
        let (rest, found) = ConnectionPool.get pool addr in (resource_or_connect addr found, rest)
    | false ↦ (N.connect addr, pool)
  ]

  -- The request is written and flushed, and the response read; the fuels are those of the loops that
  -- read the headers.
  unfoldable pub exchange :
      BufWriter → ℕ → ℕ → Bytes → Request Media → Conn → HttpResult ClientResponse
  exchange buffered lines fuel addr request conn = do
    _ ← map_err of_io (N.try_clone conn)
    _ ← map_err of_io (N.try_clone conn)
    sent ← Request.write mime buffered request (N.output conn)
    _ ← map_err of_io (N.flush conn sent.written)
    response ← Response.read_from mime lines fuel (N.reply conn sent.written)
    ok (record { response = response; conn = conn; addr = addr })

  -- `Client::run`: the response, and the pool.
  unfoldable pub run :
      BufWriter → ℕ → ℕ → Pool Conn → Bytes → Request Media → HttpResult ClientResponse × Pool Conn
  run buffered lines fuel pool addr request =
      let (conn, rest) = connection pool addr request in
      (conn >>= exchange buffered lines fuel addr request, rest)

  -- The rest of the body is read away; a failure of that is only logged, and a panic is none.
  unfoldable pub consume : Option (Body Media) → Option (Unit {0})
  consume none = some tt
  consume (some body) = elim (Body.ensure_read mime body) [ panic ↦ none | _ ↦ some tt ]

  -- `none` is `unreachable!` in the pool.
  unfoldable pub put_back :
      ℕ → ClientResponse → Pool Conn → IoResult (Unit {0}) → Option (Pool Conn)
  put_back now r pool (ok _) = insert pool r.addr (record { resource = r.conn; last_used = now })
  put_back now r pool _ = some pool

  -- `Drop for ClientResponse` at an instant, while the client is there; `none` is a panic.
  unfoldable pub drop_response : ℕ → ClientResponse → Pool Conn → Option (Pool Conn)
  drop_response now r pool = elim (consume r.response.body) [
    | none ↦ none
    | some _ ↦ put_back now r pool (N.try_clone r.conn)
  ]

  unfoldable pub connections : List (PoolResource Conn) → List Conn
  connections [] = []
  connections (c ∷ cs) = c.resource ∷ connections cs

  -- `Drop for Client`: the connections that are shut down.
  unfoldable pub drop_client : Pool Conn → List Conn
  drop_client pool = connections (drain pool).1

-- ===== src/Streams/Tls/Session.antt =====
-- wruster/src/streams/tls/mod.rs: `tls::Stream`, a session of the crate rustls over a TCP stream. The
-- crate is a parameter. The plain stream and the stream of the session are one socket.
use wruster.Base.{ℕ, ◌≡◌, ◌≤◌, ◌++◌, List, [], ◌∷◌, Bytes, length, take}
use wruster.Http.Error.{IoError, Result, ok, err, map_err, ◌>>=◌}
use wruster.Http.Io.{IoResult}
use wruster.Streams.Base.{Action, BaseStream}
use wruster.Streams.Tls.{failed}

-- `rustls::{ServerConfig, ServerConnection, StreamOwned}`, and `TcpStream::try_clone`. An error of the
-- crate is its text. `taken` is what the session took to encrypt.
pub record Rustls (T : BaseStream) : Type 1 where
  pub Config : Type 0
  pub Session : Type 0
  pub with_single_cert : List Bytes → Bytes → Result Bytes Config
  pub new_connection : Config → Result Bytes Session
  pub try_clone : T.State → IoResult (Unit {0})
  pub taken : Session × T.State → Bytes
  pub write : Bytes → Action (Session × T.State) ℕ
  pub read : ℕ → Action (Session × T.State) Bytes
  pub flush : Action (Session × T.State) (Unit {0})
  pub read-length :
      (n : ℕ) (s : Session × T.State) (bytes : Bytes) → (read n s).0 ≡ ok bytes → length bytes ≤ n
  pub write-taken :
      (buf : Bytes) (s : Session × T.State) (n : ℕ)
      → (write buf s).0 ≡ ok n
      → (n ≤ length buf) × (taken (write buf s).1 ≡ taken s ++ take n buf)
  pub write-refused :
      (buf : Bytes) (s : Session × T.State) (e : IoError)
      → (write buf s).0 ≡ err e
      → taken (write buf s).1 ≡ taken s

module _ (T : BaseStream) (R : Rustls T) where
  open R use {Session}

  -- An operation of `plain_stream`.
  abbrev on_plain : Action T.State (Unit {0}) → Action (Session × T.State) (Unit {0})
  on_plain f (session, s) = let (outcome, t) = f s in (outcome, (session, t))

  -- `BaseStream` for `tls::Stream`
  abbrev pub tls : BaseStream
  tls = record {
    State = Session × T.State;
    written = R.taken;
    set_nonblocking = λ nonblocking. on_plain (T.set_nonblocking nonblocking);
    shutdown = on_plain T.shutdown;
    set_read_timeout = λ dur. on_plain (T.set_read_timeout dur);
    set_write_timeout = λ dur. on_plain (T.set_write_timeout dur);
    as_raw = λ (session, s). T.as_raw s;
    write_buf = R.write;
    read_buf = R.read;
    flush_data = R.flush;
    read_buf-length = R.read-length;
    write_buf-written = R.write-taken;
    write_buf-refused = R.write-refused;
  }

  -- `tls::Stream::new`
  unfoldable pub new : T.State → Bytes → Bytes → IoResult (Session × T.State)
  new stream private_key cert =
      map_err failed (R.with_single_cert (cert ∷ []) private_key) >>= λ config.
      R.try_clone stream >>= λ _.
      map_err failed (R.new_connection config) >>= λ session. ok (session, stream)

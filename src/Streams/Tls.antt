-- ===== src/Streams/Tls.antt =====
-- wruster/src/streams/tls/mod.rs: the certificate and the private key that a server is given by the
-- paths of files. The files and the reader of the pem format, the crate rustls_pemfile, are a
-- parameter.
pub mod Certificate
pub mod PrivateKey
pub mod Session
use wruster.Base.{Bytes, List, Option}
use wruster.Http.Error.{ErrorKind, IoError, not_found, other, Result, map_err}
use wruster.Http.Io.{IoResult}

-- The items of a pem file that the code tells apart.
pub data Item : Type 0 where
  rsa_key pkcs8_key ec_key other_item : Bytes → Item

-- The file at a path, every certificate of a file, and its first item.
pub record Pem : Type 0 where
  pub file_at : Bytes → IoResult Bytes
  pub certs : Bytes → IoResult (List Bytes)
  pub read_one : Bytes → IoResult (Option Item)

abbrev pub failed : Bytes → IoError
failed message = record { kind = other; message = message }

abbrev pub of_missing : ErrorKind → Bytes → IoError → IoError
of_missing not_found message e = failed message
of_missing _ message e = e

-- The file at a path, with a message of the caller's own when there is none.
abbrev pub opened : Pem → Bytes → Bytes → IoResult Bytes
opened pem missing path = map_err (λ e. of_missing e.kind missing e) (pem.file_at path)

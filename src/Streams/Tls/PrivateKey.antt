-- ===== src/Streams/Tls/PrivateKey.antt =====
-- wruster/src/streams/tls/mod.rs: `PrivateKey::read_from`
use wruster.Base.{Option, none, some, Bytes, ◌++◌, codes}
use wruster.Http.Error.{ok, err, ◌>>=◌}
use wruster.Http.Io.{IoResult}
use wruster.Streams.Tls.{Item, rsa_key, pkcs8_key, ec_key, other_item, Pem, failed, opened}

abbrev no_key : Bytes → IoResult Bytes
no_key path = err (failed (codes "no private key found in " ++ path ++ codes " "))

abbrev pub key_of : Bytes → Option Item → IoResult Bytes
key_of path none = no_key path
key_of path (some (rsa_key key)) = ok key
key_of path (some (pkcs8_key key)) = ok key
key_of path (some (ec_key key)) = ok key
key_of path (some (other_item content)) = no_key path

unfoldable pub read_from : Pem → Bytes → IoResult Bytes
read_from pem path =
    opened pem (codes "no file found in " ++ path ++ codes " ") path
    >>= (λ content. pem.read_one content >>= key_of path)

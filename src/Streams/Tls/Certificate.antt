-- ===== src/Streams/Tls/Certificate.antt =====
-- wruster/src/streams/tls/mod.rs: `Certificate::read_from`
use wruster.Base.{List, [], ◌∷◌, Bytes, ◌++◌, codes}
use wruster.Http.Error.{ok, err, ◌>>=◌}
use wruster.Http.Io.{IoResult}
use wruster.Streams.Tls.{Pem, failed, opened}

abbrev pub first : Bytes → List Bytes → IoResult Bytes
first path [] = err (failed (codes "no certificate found in " ++ path ++ codes " "))
first path (cert ∷ chain) = ok cert

unfoldable pub read_from : Pem → Bytes → IoResult Bytes
read_from pem path =
    opened pem (codes "file " ++ path ++ codes " not found") path
    >>= (λ content. pem.certs content >>= first path)

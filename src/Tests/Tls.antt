-- ===== src/Tests/Tls.antt =====
-- Runs of wruster/src/streams/tls/mod.rs at a directory with one file, which has a certificate first
-- and a private key after it.
use wruster.Base.{◌≡◌, refl, some, [], ◌∷◌, Bytes, codes}
use wruster.Http.Error.{not_found, ok, err}
use wruster.Streams.Tls.{other_item, Pem, failed}
use wruster.Streams.Tls.Certificate
use wruster.Streams.Tls.PrivateKey

abbrev at_path : Bytes → Pem
at_path content = record {
  file_at = λ path. ok content;
  certs = λ content. ok (content ∷ []);
  read_one = λ content. ok (some (other_item content));
}

abbrev empty_disk : Pem
empty_disk = record (at_path []) {
  file_at = λ path. err (record { kind = not_found; message = codes "no such file" });
}

certificate_first : Certificate.read_from (at_path (codes "c")) (codes "p") ≡ ok (codes "c")
unfolding Certificate.read_from
certificate_first = refl

certificate_missing :
    Certificate.read_from empty_disk (codes "p") ≡ err (failed (codes "file p not found"))
unfolding Certificate.read_from
certificate_missing = refl

-- Only the first item of the file is looked at.
private_key_second :
    PrivateKey.read_from (at_path (codes "c")) (codes "p")
    ≡ err (failed (codes "no private key found in p "))
unfolding PrivateKey.read_from
private_key_second = refl

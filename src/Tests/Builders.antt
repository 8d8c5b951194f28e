-- ===== src/Tests/Builders.antt =====
-- A server with a private key that does not fit its certificate.
use wruster.Base.{◌≡◌, refl, false, [], ◌∷◌, Bytes, codes}
use wruster.Http.Error.{ok, err}
use wruster.Server.Accepting.Builders.{event_of, tls_stream, tls_stream-refused}
use wruster.Server.Accepting.{takes, other_key, handling, panicked, finishes, turn}
use wruster.Streams.Base.{BaseStream}
use wruster.Streams.Cancellable.New.{Polling}
use wruster.Streams.Tls.Session.{Rustls, tls}
use wruster.Tests.Lifecycle.{one}
use wruster.Tests.Streams.{take_one, take_one-written, take_one-refused, read_two, read_two-short}

abbrev tcp : BaseStream
tcp = record {
  State = Bytes;
  written = λ s. s;
  set_nonblocking = λ b s. (ok tt, s);
  shutdown = λ s. (ok tt, s);
  set_read_timeout = λ d s. (ok tt, s);
  set_write_timeout = λ d s. (ok tt, s);
  as_raw = λ s. 3;
  write_buf = λ buf s. take_one s buf;
  read_buf = λ n s. (read_two n, s);
  flush_data = λ s. (ok tt, s);
  read_buf-length = read_two-short;
  write_buf-written = take_one-written;
  write_buf-refused = take_one-refused;
}

-- No key is taken.
abbrev strict : Rustls tcp
strict = record {
  Config = Unit {0};
  Session = Unit {0};
  with_single_cert = λ certs key. err (codes "bad key");
  new_connection = λ config. ok tt;
  try_clone = λ s. ok tt;
  taken = λ (session, s). s;
  write = λ buf (session, s). let (outcome, t) = take_one s buf in (outcome, (tt, t));
  read = λ n s. (read_two n, s);
  flush = λ s. (ok tt, s);
  read-length = λ n (session, s). read_two-short n s;
  write-taken = λ buf (session, s). take_one-written buf s;
  write-refused = λ buf (session, s). take_one-refused buf s;
}

abbrev polling : Polling (tls tcp strict)
polling = record {
  Poller = Unit {0};
  create = ok tt;
  add = λ raw interest key p. (ok tt, p);
  modify = λ raw interest key p. (ok tt, p);
  wait = λ d s. (ok [], s);
  wait-written = λ d s. refl;
}

refused_first :
    turn
      (ok [])
      false
      (handling (
        event_of (tls_stream tcp strict polling (codes "k") (codes "c") []) takes ∷ other_key ∷ []))
      one
    ≡ finishes panicked
refused_first =
    tls_stream-refused tcp strict polling (codes "k") (codes "c") (codes "bad key") [] takes false
      (ok []) (other_key ∷ []) one refl

-- ===== src/Tests/Mains.antt =====
-- How the programs end.
use wruster.Base.{◌≡◌, refl, none, some, [], ◌∷◌, codes}
use wruster.Http.Error.{IoError, not_found, ok, err}
use wruster.Programs.Exit.{succeeds, fails, serve}
use wruster.Programs.HelloWorld
use wruster.Programs.Wrusdummy.Main as Wrusdummy
use wruster.Programs.Wrusdummy.Main.{Yaml}
use wruster.Programs.Wrustatic.Main as Wrustatic
use wruster.Programs.Wrustatic.Main.{Cli}
use wruster.Server.Lifecycle
use wruster.Server.Lifecycle.{ended, start, start_unless, listen, wait, wait_result, from_timeouts}
use wruster.Streams.Tls.Certificate
use wruster.Streams.Tls.{Pem}
use wruster.Tests.Messages.{mime}

abbrev absent : IoError
absent = record { kind = not_found; message = codes "no such file" }

abbrev no_files : Pem
no_files = record {
  file_at = λ path. err absent;
  certs = λ content. ok [];
  read_one = λ content. ok none;
}

abbrev plain : Cli
plain = record { addres = codes "a"; directory = codes "/"; tls_private = none; tls_cert = none }

wrustatic-plain : Wrustatic.main no_files (ok tt) (ended (ok tt)) plain ≡ succeeds
unfolding Wrustatic.main Wrustatic.with_cert serve start start_unless listen wait wait_result
    from_timeouts
wrustatic-plain = refl

wrustatic-no_cert :
    Wrustatic.main no_files (ok tt) (ended (ok tt)) (record plain { tls_cert = some (codes "c") })
    ≡ fails
unfolding Wrustatic.main Wrustatic.with_cert Certificate.read_from
wrustatic-no_cert = refl

abbrev empty_config : Yaml
empty_config = record { file_at = λ path. ok []; from_reader = λ content. ok [] }

wrusdummy-no_arguments :
    Wrusdummy.main mime empty_config (ok tt) (ended (ok tt)) (codes "wrusdummy" ∷ []) ≡ fails
unfolding Wrusdummy.main
wrusdummy-no_arguments = refl

hello_world-ended : HelloWorld.main (ok tt) (ended (ok tt)) ≡ succeeds
unfolding HelloWorld.main serve start start_unless listen wait wait_result Lifecycle.new
    from_timeouts
hello_world-ended = refl

hello_world-taken : HelloWorld.main (err absent) (ended (ok tt)) ≡ fails
unfolding HelloWorld.main serve start start_unless listen Lifecycle.new from_timeouts
hello_world-taken = refl

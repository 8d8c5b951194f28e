-- ===== src/Programs/Wrustatic/Main.antt =====
-- wrustatic/src/main.rs: `main`. The command line is parsed by the crate clap.
use wruster.Base.{◌*◌, Option, none, some, Bytes}
use wruster.Http.Io.{IoResult}
use wruster.Programs.Exit.{Exit, fails, or_exit, serve}
use wruster.Server.Lifecycle.{Timeouts, Joined, from_timeouts}
use wruster.Streams.Timeout.{second}
use wruster.Streams.Tls.Certificate
use wruster.Streams.Tls.PrivateKey
use wruster.Streams.Tls.{Pem}

pub record Cli : Type 0 where
  pub addres : Bytes
  pub directory : Bytes
  pub tls_private : Option Bytes
  pub tls_cert : Option Bytes

abbrev pub timeouts : Timeouts
timeouts = record { read_request_timeout = 10 * second; write_response_timeout = 10 * second }

-- The key is read before the server is started; `unwrap` of a file that is not named is a panic.
unfoldable pub with_key : Pem → Option Bytes → Exit → Exit
with_key pem none next = fails
with_key pem (some file) next = or_exit (PrivateKey.read_from pem file) (λ key. next)

unfoldable pub with_cert : Pem → Cli → Option Bytes → Exit → Exit
with_cert pem cli none next = next
with_cert pem cli (some file) next =
    or_exit (Certificate.read_from pem file) (λ cert. with_key pem cli.tls_private next)

-- `main`, with the outcomes of the binding and of the accepting thread.
unfoldable pub main : Pem → IoResult (Unit {0}) → Joined → Cli → Exit
main pem bound joined cli =
    with_cert pem cli cli.tls_cert (serve cli.addres bound joined (from_timeouts timeouts))

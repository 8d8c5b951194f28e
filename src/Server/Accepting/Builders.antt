-- ===== src/Server/Accepting/Builders.antt =====
-- wruster/src/lib.rs: `Server::run` and `Server::run_tls`, which give the accepting loop what makes the
-- stream of a connection.
use wruster.Base.{◌≡◌, Bool, List, [], ◌∷◌, Bytes}
use wruster.Http.Error.{ok, err, panic, running}
use wruster.Http.Io.{IoResult}
use wruster.Server.Accepting.{
  Event, Verdict, unbuilt, breaks, connects, handling, panicked, finishes, handle_event, turn,
}
use wruster.Streams.Base.{BaseStream}
use wruster.Streams.Cancellable.New
use wruster.Streams.Cancellable.New.{Polling, device}
use wruster.Streams.Cancellable.{CancellableStream}
use wruster.Streams.Observed.{World}
use wruster.Streams.Tls.Session
use wruster.Streams.Tls.Session.{Rustls, tls}

-- What a builder's outcome is to the accepting loop, with what the pool does with the action.
abbrev pub event_of {ℓ} : {A : Type ℓ} → IoResult A → Verdict → Event
event_of (ok stream) verdict = connects verdict
event_of (err e) verdict = unbuilt
event_of panic verdict = breaks
event_of running verdict = breaks

-- `Result::unwrap`
abbrev pub unwrapped {ℓ κ} : {A : Type ℓ} {B : Type κ} → IoResult A → (A → IoResult B) → IoResult B
unwrapped (ok a) next = next a
unwrapped (err e) next = panic
unwrapped panic next = panic
unwrapped running next = running

-- The builder of `Server::run`.
unfoldable pub plain_stream :
    (T : BaseStream) (P : Polling T) → T.State → IoResult (CancellableStream (device T P))
plain_stream T P stream = New.new T P stream

module _ (T : BaseStream) (R : Rustls T) (P : Polling (tls T R)) where
  -- The builder of `Server::run_tls`.
  unfoldable pub tls_stream :
      Bytes → Bytes → T.State → IoResult (CancellableStream (device (tls T R) P))
  tls_stream key cert stream =
      unwrapped (Session.new T R stream key cert) (λ s. New.new (tls T R) P s)

  -- A key that rustls does not take with the certificate makes the first connection end the accepting
  -- loop in a panic.
  pub tls_stream-refused :
      (key cert message : Bytes) (stream : T.State) (verdict : Verdict) (stop : Bool)
      (got : IoResult (List Event)) (events : List Event) (w : World)
      → R.with_single_cert (cert ∷ []) key ≡ err message
      → turn got stop (handling (event_of (tls_stream key cert stream) verdict ∷ events)) w
        ≡ finishes panicked
  unfolding tls_stream Session.new turn handle_event
  tls_stream-refused key cert message stream verdict stop got events w refused = rw refused

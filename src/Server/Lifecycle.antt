-- ===== src/Server/Lifecycle.antt =====
-- wruster/src/lib.rs: how a server is started and shut down. The thread that accepts connections is its
-- outcome; that a listener is bound, and that the poller is notified, are outcomes too. The listener
-- is set to non-blocking and added to a new poller without an error, which the source unwraps.
pub mod Started
use wruster.Base.{ℕ, ◌*◌, Bool, true, false, Option, none, some, List, [], ◌∷◌, Bytes, codes}
use wruster.Http.Error.{IoError, other, Result, ok, err, panic, running}
use wruster.Http.Io.{IoResult}
use wruster.Streams.Timeout.{second}

pub record Timeouts : Type 0 where
  pub read_request_timeout : ℕ
  pub write_response_timeout : ℕ

-- The handle of the thread and the poller are there or not.
pub record Server : Type 0 where
  pub stop : Bool
  pub addr : Option Bytes
  pub handle : Option (Unit {0})
  pub poller : Option (Unit {0})
  pub timeouts : Timeouts

abbrev pub default_timeouts : Timeouts
default_timeouts = record {
  read_request_timeout = 30 * second;
  write_response_timeout = 60 * second;
}

-- `Server::from_timeouts`
unfoldable pub from_timeouts : Timeouts → Server
from_timeouts timeouts = record {
  stop = false;
  addr = none;
  handle = none;
  poller = none;
  timeouts = timeouts;
}

-- `Server::new`
unfoldable pub new : Server
new = from_timeouts default_timeouts

abbrev pub other_error : Bytes → IoError
other_error message = record { kind = other; message = message }

abbrev pub already_started : IoError
already_started = other_error (codes "server already started")

abbrev pub not_started : IoError
not_started = other_error (codes "server not started")

unfoldable pub listen : Bytes → IoResult (Unit {0}) → Server → IoResult (Unit {0}) × Server
listen addr (ok _) s = (ok tt, record s { addr = some addr; handle = some tt; poller = some tt })
listen addr (err e) s = (err e, s)
listen addr panic s = (panic, s)
listen addr running s = (running, s)

unfoldable pub start_unless :
    Option (Unit {0}) → Bytes → IoResult (Unit {0}) → Server → IoResult (Unit {0}) × Server
start_unless (some _) addr bound s = (err already_started, s)
start_unless none addr bound s = listen addr bound s

-- `Server::start`, with the outcome of the binding.
unfoldable pub start : Bytes → IoResult (Unit {0}) → Server → IoResult (Unit {0}) × Server
start addr bound s = start_unless s.poller addr bound s

-- How the thread that accepts connections ended.
pub data Joined : Type 0 where
  ended : IoResult (Unit {0}) → Joined
  thread_panicked : Joined

unfoldable pub join_result : Joined → IoResult (Unit {0})
join_result (ended (ok _)) = ok tt
join_result (ended (err e)) = err (other_error e.message)
join_result (ended panic) = panic
join_result (ended running) = running
join_result thread_panicked = err (other_error (codes "error waiting for accepting connections"))

unfoldable pub notified : IoResult (Unit {0}) → Joined → IoResult (Unit {0})
notified (ok _) joined = join_result joined
notified (err e) joined = err e
notified panic joined = panic
notified running joined = running

-- `Server::shutdown`, with the outcomes of the notification and of the thread; the flag `stop` is
-- set before the thread is notified. A server without a poller is a panic of `unwrap`.
unfoldable pub shutdown : IoResult (Unit {0}) → Joined → Server → IoResult (Unit {0})
shutdown notify joined s = elim s.handle [
  | none ↦ err not_started
  | some _ ↦ elim s.poller [ none ↦ panic | some _ ↦ notified notify joined ]
]

unfoldable pub wait_result : Joined → IoResult (Unit {0})
wait_result (ended outcome) = outcome
wait_result thread_panicked = panic

-- `Server::wait`
unfoldable pub wait : Joined → Server → IoResult (Unit {0})
wait joined s = elim s.handle [ none ↦ err not_started | some _ ↦ wait_result joined ]

-- ===== src/Server/Lifecycle/Started.antt =====
-- wruster/src/lib.rs: a server is started once.
use wruster.Base.{◌≡◌, refl, ap, Option, none, some, List, [], ◌∷◌, Bytes}
use wruster.Http.Error.{ok, err, panic, running}
use wruster.Http.Io.{IoResult}
use wruster.Server.Lifecycle.{
  Timeouts, Server, from_timeouts, already_started, not_started, listen, start, start_unless,
  Joined, notified, shutdown, wait_result, wait,
}

abbrev pub Call : Type 0
Call = Bytes × IoResult (Unit {0})

-- Attempts to start, one after the other.
abbrev pub starts : List Call → Server → Server
starts [] s = s
starts ((addr, bound) ∷ calls) s = starts calls (start addr bound s).1

-- The first address that was bound.
abbrev pub or_later : Bytes → IoResult (Unit {0}) → Option Bytes → Option Bytes
or_later addr (ok _) later = some addr
or_later addr _ later = later

abbrev pub first_bound : List Call → Option Bytes
first_bound [] = none
first_bound ((addr, bound) ∷ calls) = or_later addr bound (first_bound calls)

-- What a shut down or a wait gives, by the address that the server listens on.
abbrev pub if_started : Option Bytes → IoResult (Unit {0}) → IoResult (Unit {0})
if_started none outcome = err not_started
if_started (some addr) outcome = outcome

abbrev IsRunning : Bytes → Server → Type 0
IsRunning addr s = (s.addr ≡ some addr) × (s.handle ≡ some tt) × (s.poller ≡ some tt)

start-started :
    (addr : Bytes) (bound : IoResult (Unit {0})) (s : Server)
    → s.poller ≡ some tt
    → start addr bound s ≡ (err already_started, s)
unfolding start start_unless
start-started addr bound s h = ap (λ p. start_unless p addr bound s) h

start-fresh :
    (addr : Bytes) (bound : IoResult (Unit {0})) (s : Server)
    → s.poller ≡ none
    → start addr bound s ≡ listen addr bound s
unfolding start start_unless
start-fresh addr bound s h = ap (λ p. start_unless p addr bound s) h

starts-IsRunning :
    (addr : Bytes) (calls : List Call) (s : Server)
    → IsRunning addr s
    → IsRunning addr (starts calls s)
starts-IsRunning addr [] s h = h
starts-IsRunning addr ((a, bound) ∷ calls) s h =
    rw (starts, start-started a bound s h.2) (starts-IsRunning addr calls s h)

-- The state of a server that was tried to start, by the first address that was bound.
abbrev Listens : Option Bytes → Server → Type 0
Listens none s = (s.addr ≡ none) × (s.handle ≡ none) × (s.poller ≡ none)
Listens (some addr) s = IsRunning addr s

starts-Listens :
    (calls : List Call) (s : Server) → Listens none s → Listens (first_bound calls) (starts calls s)
unfolding listen
starts-Listens [] s h = h
starts-Listens ((a, ok u) ∷ calls) s h =
    rw (starts, start-fresh a (ok u) s h.2) (starts-IsRunning a calls _ (refl, refl, refl))
starts-Listens ((a, err e) ∷ calls) s h =
    rw (starts, start-fresh a (err e) s h.2) (starts-Listens calls s h)
starts-Listens ((a, panic) ∷ calls) s h =
    rw (starts, start-fresh a (panic) s h.2) (starts-Listens calls s h)
starts-Listens ((a, running) ∷ calls) s h =
    rw (starts, start-fresh a (running) s h.2) (starts-Listens calls s h)

Listens-outcome :
    (at_addr : Option Bytes) (s : Server) (notify : IoResult (Unit {0})) (joined : Joined)
    → Listens at_addr s
    → (s.addr ≡ at_addr)
      × (shutdown notify joined s ≡ if_started at_addr (notified notify joined))
      × (wait joined s ≡ if_started at_addr (wait_result joined))
unfolding shutdown wait
Listens-outcome none s notify joined h = (h.0, rw h.1, rw h.1)
Listens-outcome (some addr) s notify joined h = (h.0, rw (h.1, h.2), rw h.1)

-- After any attempts to start it, a server listens on the first address that could be bound: a
-- shutdown is then what notifying and joining its thread gives, and no panic of its own, and a wait
-- what the thread gives. If no address could be bound, both are refused as "server not started".
pub starts-first_bound :
    (timeouts : Timeouts) (calls : List Call) (notify : IoResult (Unit {0})) (joined : Joined)
    → ((starts calls (from_timeouts timeouts)).addr ≡ first_bound calls)
      × (shutdown notify joined (starts calls (from_timeouts timeouts))
          ≡ if_started (first_bound calls) (notified notify joined))
      × (wait joined (starts calls (from_timeouts timeouts))
          ≡ if_started (first_bound calls) (wait_result joined))
starts-first_bound timeouts calls notify joined =
    let fresh : Listens none (from_timeouts timeouts) =
      unfold from_timeouts in (refl, refl, refl) in
    Listens-outcome (first_bound calls) (starts calls (from_timeouts timeouts)) notify joined
      (starts-Listens calls (from_timeouts timeouts) fresh)

-- ===== src/Client/ConnectionPool/Expiry.antt =====
-- wruster/src/http/client/connection_pool.rs: the pool with the thread that expires its resources.
-- The thread and the users of the pool move in any order; a round of the expiry and each operation
-- hold the lock, so they are one step each. `thread::park_timeout` may return early without a reason.
pub mod Ending
pub mod Contents
use wruster.Base.{ℕ, Bool, true, false, ◌≡◌, Option, none, some, Bytes}
use wruster.Client.ConnectionPool as Resources
use wruster.Client.ConnectionPool.{PoolResource, expire_connections, get, insert, drain}

-- The thread is about to load the flag `stop`, about to take the lock, about to park, or parked; or
-- it has left its loop.
pub data Worker : Type 0 where
  checking expiring parking parked ended : Worker

-- The owner uses the pool; in the drop it has stored the flag, has unparked the thread, or has joined
-- it.
pub data Owner : Type 0 where
  using stopping joining joined : Owner

abbrev pub default_idle_timeout : ℕ
default_idle_timeout = 30

abbrev pub idle_time : Option ℕ → ℕ
idle_time none = default_idle_timeout
idle_time (some timeout) = timeout

-- With the flag `expire_worker_stop`, and the token that `unpark` leaves for the thread.
pub record Pool (T : Type 0) : Type 0 where
  pub resources : Resources.Pool T
  pub idle_timeout : ℕ
  pub stop : Bool
  pub token : Bool
  pub worker : Worker
  pub owner : Owner

-- The test of the loop.
abbrev pub after_check : Bool → Worker
after_check true = ended
after_check false = expiring

-- `thread::park_timeout`, which takes the token if there is one.
abbrev pub after_park : Bool → Worker
after_park true = checking
after_park false = parked

module _ {T : Type 0} where
  -- `Pool::new`
  unfoldable pub new : Option ℕ → Pool T
  new idle_timeout = record {
    resources = Resources.new;
    idle_timeout = idle_time idle_timeout;
    stop = false;
    token = false;
    worker = checking;
    owner = using;
  }

  -- The steps that do not wait for time to pass.
  pub data Prompt : Pool T → Pool T → Type 0 where
    checks :
        (p : Pool T) → p.worker ≡ checking → Prompt p (record p { worker = after_check p.stop })
    expires :
        (p : Pool T) (now : ℕ)
        → p.worker ≡ expiring
        → Prompt p (record p {
          resources = expire_connections p.idle_timeout now p.resources;
          worker = parking;
        })
    parks :
        (p : Pool T)
        → p.worker ≡ parking
        → Prompt p (record p { worker = after_park p.token; token = false })
    wakes :
        (p : Pool T)
        → p.worker ≡ parked
        → p.token ≡ true
        → Prompt p (record p { worker = checking; token = false })
    gets :
        (p : Pool T) (key : Bytes)
        → p.owner ≡ using
        → Prompt p (record p { resources = (get p.resources key).0 })
    inserts :
        (p : Pool T) (key : Bytes) (conn : PoolResource T) (resources : Resources.Pool T)
        → p.owner ≡ using
        → insert p.resources key conn ≡ some resources
        → Prompt p (record p { resources = resources })
    drains :
        (p : Pool T) → p.owner ≡ using → Prompt p (record p { resources = (drain p.resources).0 })
    stores : (p : Pool T) → p.owner ≡ using → Prompt p (record p { stop = true; owner = stopping })
    unparks :
        (p : Pool T) → p.owner ≡ stopping → Prompt p (record p { token = true; owner = joining })
    joins :
        (p : Pool T) → p.owner ≡ joining → p.worker ≡ ended → Prompt p (record p { owner = joined })

  pub data Step : Pool T → Pool T → Type 0 where
    prompt : {p p' : Pool T} → Prompt p p' → Step p p'
    -- The time of the cycle is over, or the thread wakes without a reason.
    times_out : (p : Pool T) → p.worker ≡ parked → Step p (record p { worker = checking })

  -- What a pool comes to.
  pub data Reachable (idle : Option ℕ) : Pool T → Type 0 where
    start : Reachable idle (new idle)
    next : {p p' : Pool T} → Reachable idle p → Step p p' → Reachable idle p'

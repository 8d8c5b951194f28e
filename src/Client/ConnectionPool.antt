-- ===== src/Client/ConnectionPool.antt =====
-- wruster/src/http/client/connection_pool.rs: the idle connections of a client, by address. The hash
-- map is an association list, whose order stands for the order of iteration. An instant is a number,
-- and the difference of two stops at 0. The lock and the thread that expires connections are the
-- callers of the operations.
pub mod Lookup
pub mod Bounds
pub mod Eviction
pub mod Expiry
use wruster.Base.{
  ℕ, ◌-◌, Option, none, some, List, [], ◌∷◌, Bytes, ◌==◌, ltb, if◌then◌else◌, equal, length,
}

pub record PoolResource (T : Type 0) : Type 0 where
  pub resource : T
  pub last_used : ℕ

abbrev pub Pool : Type 0 → Type 0
Pool T = List (Bytes × PoolResource T)

abbrev pub max_resources : ℕ
max_resources = 100

abbrev pub least_used_addr : Option (Bytes × ℕ) → Bytes
least_used_addr none = []
least_used_addr (some (a, t)) = a

module _ {T : Type 0} where
  unfoldable pub new : Pool T
  new = []

  -- The operations of the hash map.
  unfoldable pub lookup : Pool T → Bytes → Option (PoolResource T)
  lookup [] key = none
  lookup ((k, c) ∷ p) key = let later = lookup p key in if equal k key then some c else later

  unfoldable pub remove : Pool T → Bytes → Pool T
  remove [] key = []
  remove ((k, c) ∷ p) key = let rest = remove p key in if equal k key then rest else (k, c) ∷ rest

  unfoldable pub put : Pool T → Bytes → PoolResource T → Pool T
  put [] key conn = (key, conn) ∷ []
  put ((k, c) ∷ p) key conn =
      let rest = put p key conn in if equal k key then (k, conn) ∷ p else (k, c) ∷ rest

  -- The connections that were drained, put back while they are recent enough.
  unfoldable pub put_recent : ℕ → ℕ → Pool T → Pool T → Pool T
  put_recent idle now [] kept = kept
  put_recent idle now ((addr, conn) ∷ conns) kept =
      let with_it = put_recent idle now conns (put kept addr conn) in
      let without_it = put_recent idle now conns kept in
      if ltb (now - conn.last_used) idle then with_it else without_it

  -- One round of `Pool::expire_connections`.
  unfoldable pub expire_connections : ℕ → ℕ → Pool T → Pool T
  expire_connections idle now p = put_recent idle now p []

  -- `Pool::get`: the pool left behind, and the resource.
  unfoldable pub get : Pool T → Bytes → Pool T × Option (PoolResource T)
  get p key = (remove p key, lookup p key)

  -- The least recently used of the ones before, and this one.
  unfoldable pub least : Option (Bytes × ℕ) → Bytes → PoolResource T → Option (Bytes × ℕ)
  least none addr conn = some (addr, conn.last_used)
  least (some (a, t)) addr conn =
      if ltb conn.last_used t then some (addr, conn.last_used) else some (a, t)

  -- The loop of `remove_lru`: it puts the drained connections back.
  unfoldable pub scan : Pool T → Option (Bytes × ℕ) → Pool T → Option (Bytes × ℕ) × Pool T
  scan [] found kept = (found, kept)
  scan ((addr, conn) ∷ conns) found kept = scan conns (least found addr conn) (put kept addr conn)

  -- `none` is `unreachable!`.
  unfoldable pub remove_lru : Pool T → Option (Pool T)
  remove_lru p =
      let (found, kept) = scan p none [] in
      elim (lookup kept (least_used_addr found)) [
        | none ↦ none
        | some c ↦ some (remove kept (least_used_addr found))
      ]

  -- `Pool::insert`
  unfoldable pub insert : Pool T → Bytes → PoolResource T → Option (Pool T)
  insert p key conn = if length p == max_resources then remove_lru p else some (put p key conn)

  abbrev pub resources : Pool T → List (PoolResource T)
  resources [] = []
  resources ((k, c) ∷ p) = c ∷ resources p

  -- `Pool::drain`: the pool left behind, and its resources.
  unfoldable pub drain : Pool T → Pool T × List (PoolResource T)
  drain p = ([], resources p)

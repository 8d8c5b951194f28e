-- ===== src/Tests/Client.antt =====
-- Pools of connections: a small one, and a full one.
use wruster.Base.{ℕ, zero, suc, ◌≤◌, ◌≡◌, refl, none, some, [], ◌∷◌, arith, equal, codes}
use wruster.Client.ConnectionPool.Eviction.{Evicts, insert-Evicts}
use wruster.Client.ConnectionPool.Lookup.{IsMap, lookup-expire_connections}
use wruster.Client.ConnectionPool.{PoolResource, Pool, lookup, put, expire_connections, insert}

abbrev conn : ℕ → PoolResource ℕ
conn t = record { resource = 7; last_used = t }

abbrev two : Pool ℕ
two = (codes "a:1", conn 3) ∷ (codes "b:2", conn 9) ∷ []

two-IsMap : IsMap two
unfolding lookup equal
two-IsMap = (refl, (refl, tt))

lookup-expire_connections_example : lookup (expire_connections 5 10 two) (codes "a:1") ≡ none
unfolding lookup equal
lookup-expire_connections_example = lookup-expire_connections 5 10 two (codes "a:1") two-IsMap

two-insert : insert two (codes "c") (conn 10) ≡ some (put two (codes "c") (conn 10))
unfolding insert
two-insert = refl

-- A pool with `n` addresses of one byte.
abbrev filled : ℕ → Pool ℕ
filled zero = []
filled (suc n) = (n ∷ [], conn n) ∷ filled n

higher-absent : (n k : ℕ) → n ≤ k → lookup (filled n) (k ∷ []) ≡ none
unfolding lookup equal
higher-absent zero k h = refl
higher-absent (suc n) k h = ground (arith, higher-absent n k (omega arith))

filled-IsMap : (n : ℕ) → IsMap (filled n)
filled-IsMap zero = tt
filled-IsMap (suc n) = (higher-absent n n (omega arith), filled-IsMap n)

insert-Evicts_example :
    (p : Pool ℕ) × (insert (filled 100) (codes "c") (conn 10) ≡ some p) × Evicts (filled 100) p
insert-Evicts_example = insert-Evicts (filled 100) (codes "c") (conn 10) (filled-IsMap 100) refl

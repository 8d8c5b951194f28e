-- ===== src/Client/ConnectionPool/Expiry/Contents.antt =====
-- The resources of a pool at any time.
use wruster.Base.{
  ℕ, ◌+◌, ◌-◌, ◌≤◌, ◌≡◌, Option, some, [], ◌∷◌, Bytes, arith, length, ltb, inl, inr, Bool-cases,
  ◌==◌,
}
use wruster.Client.ConnectionPool.Bounds.{IsPool, length-put, length-remove, insert-IsPool}
use wruster.Client.ConnectionPool.Eviction.{insert-Evicts}
use wruster.Client.ConnectionPool.Expiry.{
  new, Prompt, checks, expires, parks, wakes, gets, inserts, drains, stores, unparks, joins, Step,
  prompt, times_out, Reachable, start, next,
}
use wruster.Client.ConnectionPool.Expiry as Expiring
use wruster.Client.ConnectionPool.Lookup.{IsMap, put-IsMap, remove-IsMap}
use wruster.Client.ConnectionPool.{
  Pool, PoolResource, max_resources, put, put_recent, expire_connections, get, insert, drain,
}
use wruster.Client.ConnectionPool as Resources

module _ {T : Type 0} where
  length-put_recent :
      (idle now : ℕ) (p kept : Pool T)
      → length (put_recent idle now p kept) ≤ length p + length kept
  unfolding put_recent
  length-put_recent idle now [] kept = omega arith
  length-put_recent idle now ((k, c) ∷ p) kept = ground (
    arith,
    length-put_recent idle now p (put kept k c),
    length-put_recent idle now p kept,
    length-put kept k c,
  )

  put_recent-IsMap :
      (idle now : ℕ) (p kept : Pool T) → IsMap kept → IsMap (put_recent idle now p kept)
  unfolding put_recent
  put_recent-IsMap idle now [] kept v = v
  put_recent-IsMap idle now ((k, c) ∷ p) kept v = elim (Bool-cases (ltb (now - c.last_used) idle)) [
    | inl fresh ↦ rw fresh (put_recent-IsMap idle now p (put kept k c) (put-IsMap kept k c v))
    | inr old ↦ rw old (put_recent-IsMap idle now p kept v)
  ]

  Prompt-IsPool : {p p' : Expiring.Pool T} → Prompt p p' → IsPool p.resources → IsPool p'.resources
  unfolding expire_connections get drain
  Prompt-IsPool (checks p e) v = v
  Prompt-IsPool (expires p now e) v = (
    put_recent-IsMap p.idle_timeout now p.resources [] tt,
    omega (arith, length-put_recent p.idle_timeout now p.resources [], v.1),
  )
  Prompt-IsPool (parks p e) v = v
  Prompt-IsPool (wakes p e h) v = v
  Prompt-IsPool (gets p key e) v =
      (remove-IsMap p.resources key v.0, omega (arith, length-remove p.resources key, v.1))
  Prompt-IsPool (inserts p key conn resources e h) v =
      insert-IsPool p.resources resources key conn v h
  Prompt-IsPool (drains p e) v = (tt, omega arith)
  Prompt-IsPool (stores p e) v = v
  Prompt-IsPool (unparks p e) v = v
  Prompt-IsPool (joins p e h) v = v

  resources-IsPool : {idle : Option ℕ} {p : Expiring.Pool T} → Reachable idle p → IsPool p.resources
  unfolding new Resources.new
  resources-IsPool start = (tt, omega arith)
  resources-IsPool (next before (prompt s)) = Prompt-IsPool s (resources-IsPool before)
  resources-IsPool (next before (times_out p e)) = resources-IsPool before

  insert_total :
      (p : Pool T) (key : Bytes) (conn : PoolResource T)
      → IsPool p
      → (p' : Pool T) × (insert p key conn ≡ some p')
  unfolding insert
  insert_total p key conn v = elim (Bool-cases (length p == max_resources)) [
    | inl full ↦
        let (p', inserted, _) = insert-Evicts p key conn v.0 (ground arith) in (p', inserted)
    | inr room ↦ (put p key conn, rw room)
  ]

  -- However the users of a pool and the thread that expires its resources interleave, no address
  -- stands twice, there are no more resources than the maximum, and an insertion succeeds: its
  -- `unreachable!` is not reached.
  pub Reachable-IsPool :
      {idle : Option ℕ} {p : Expiring.Pool T} (key : Bytes) (conn : PoolResource T)
      → Reachable idle p
      → IsPool p.resources × ((resources : Pool T) × (insert p.resources key conn ≡ some resources))
  Reachable-IsPool {p = p} key conn r =
      let v = resources-IsPool r in (v, insert_total p.resources key conn v)

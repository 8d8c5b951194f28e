-- ===== src/Client/ConnectionPool/Lookup.antt =====
-- What is found in a pool after each operation.
use wruster.Base.{
  ℕ, ◌-◌, ◌≡◌, refl, ◌∙◌, inl, inr, Option, none, some, [], ◌∷◌, Bytes, ltb, if◌then◌else◌, equal,
  equal_iff, arith, Bool-cases,
}
use wruster.Client.ConnectionPool.{
  PoolResource, Pool, lookup, remove, put, put_recent, expire_connections,
}

module _ {T : Type 0} where
  -- No address stands twice.
  abbrev pub IsMap : Pool T → Type 0
  IsMap [] = Unit {0}
  IsMap ((k, c) ∷ p) = (lookup p k ≡ none) × IsMap p

  pub lookup-put :
      (p : Pool T) (key j : Bytes) (conn : PoolResource T)
      → lookup (put p key conn) j ≡ (if equal key j then some conn else lookup p j)
  unfolding lookup put
  lookup-put [] key j conn = refl
  lookup-put ((k, c) ∷ p) key j conn =
      ground (arith, lookup-put p key j conn, equal_iff k key, equal_iff k j, equal_iff key j)

  pub lookup-remove :
      (p : Pool T) (key j : Bytes)
      → lookup (remove p key) j ≡ (if equal key j then none else lookup p j)
  unfolding lookup remove
  lookup-remove [] key j = ground arith
  lookup-remove ((k, c) ∷ p) key j =
      ground (arith, lookup-remove p key j, equal_iff k key, equal_iff k j, equal_iff key j)

  pub put-IsMap :
      (p : Pool T) (key : Bytes) (conn : PoolResource T) → IsMap p → IsMap (put p key conn)
  unfolding lookup put
  put-IsMap [] key conn v = (refl, tt)
  put-IsMap ((k, c) ∷ p) key conn v = elim (Bool-cases (equal k key)) [
    | inl e ↦ rw e v
    | inr e ↦ rw e (
      lookup-put p key k conn ∙ ground (arith, equal_iff k key, equal_iff key k, v.0),
      put-IsMap p key conn v.1,
    )
  ]

  pub remove-IsMap : (p : Pool T) (key : Bytes) → IsMap p → IsMap (remove p key)
  unfolding remove
  remove-IsMap [] key v = tt
  remove-IsMap ((k, c) ∷ p) key v = elim (Bool-cases (equal k key)) [
    | inl e ↦ rw e (remove-IsMap p key v.1)
    | inr e ↦ rw e (lookup-remove p key k ∙ ground (arith, v.0), remove-IsMap p key v.1)
  ]

  -- What is recent enough at `now`.
  abbrev pub recent : ℕ → ℕ → Option (PoolResource T) → Option (PoolResource T)
  recent idle now none = none
  recent idle now (some c) = if ltb (now - c.last_used) idle then some c else none

  abbrev pub or_else : Option (PoolResource T) → Option (PoolResource T) → Option (PoolResource T)
  or_else none b = b
  or_else (some a) b = some a

  pub or_else-none : (a : Option (PoolResource T)) → or_else a none ≡ a
  or_else-none none = refl
  or_else-none (some a) = refl

  lookup-put_recent :
      (idle now : ℕ) (p kept : Pool T) (key : Bytes)
      → IsMap p
      → lookup (put_recent idle now p kept) key
        ≡ or_else (recent idle now (lookup p key)) (lookup kept key)
  unfolding put_recent lookup
  lookup-put_recent idle now [] kept key v = refl
  lookup-put_recent idle now ((k, c) ∷ p) kept key v = ground (
    arith,
    lookup-put_recent idle now p kept key v.1,
    lookup-put_recent idle now p (put kept k c) key v.1,
    lookup-put kept k key c,
    equal_iff k key,
    v.0,
  )

  -- One round of the expiry keeps the connections that were used less than the idle time ago, under
  -- their addresses, and no others, in a pool in which no address stands twice.
  pub lookup-expire_connections :
      (idle now : ℕ) (p : Pool T) (key : Bytes)
      → IsMap p
      → lookup (expire_connections idle now p) key ≡ recent idle now (lookup p key)
  unfolding expire_connections lookup
  lookup-expire_connections idle now p key v =
      lookup-put_recent idle now p [] key v ∙ or_else-none (recent idle now (lookup p key))

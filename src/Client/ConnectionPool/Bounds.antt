-- ===== src/Client/ConnectionPool/Bounds.antt =====
-- A pool never holds more than its maximum.
use mathlib.Core.Option.{some-injective}
use mathlib.Core.Path.{subst}
use wruster.Base.{
  ℕ, ◌+◌, ◌≤◌, ◌≡◌, inl, inr, Option, none, some, [], ◌∷◌, Bytes, arith, Bool-cases, Option-cases,
  ◌==◌, length,
}
use wruster.Client.ConnectionPool.Lookup.{IsMap, put-IsMap, remove-IsMap}
use wruster.Client.ConnectionPool.{
  PoolResource, Pool, max_resources, lookup, remove, put, least, least_used_addr, scan, remove_lru,
  insert,
}

module _ {T : Type 0} where
  pub length-put :
      (p : Pool T) (key : Bytes) (conn : PoolResource T) → length (put p key conn) ≤ length p + 1
  unfolding put
  length-put [] key conn = omega arith
  length-put ((k, c) ∷ p) key conn = ground (arith, length-put p key conn)

  pub length-remove : (p : Pool T) (key : Bytes) → length (remove p key) ≤ length p
  unfolding remove
  length-remove [] key = omega arith
  length-remove ((k, c) ∷ p) key = ground (arith, length-remove p key)

  length-scan :
      (p : Pool T) (found : Option (Bytes × ℕ)) (kept : Pool T)
      → length (scan p found kept).1 ≤ length p + length kept
  unfolding scan
  length-scan [] found kept = omega arith
  length-scan ((k, c) ∷ p) found kept =
      omega (arith, length-scan p (least found k c) (put kept k c), length-put kept k c)

  length-remove_lru : (p p' : Pool T) → remove_lru p ≡ some p' → length p' ≤ length p
  unfolding remove_lru
  length-remove_lru p p' e =
      let addr = least_used_addr (scan p none []).0 in
      let kept = (scan p none []).1 in
      elim (Option-cases (lookup kept addr)) [
        | inl absent ↦ let bad : none ≡ some p' = rw (absent, remove_lru) at e in cc
        | inr (c, here) ↦
            let removed : remove kept addr ≡ p' = some-injective _ _ (rw (here, remove_lru) at e) in
            subst (λ q. length q ≤ length p) removed
              (omega (arith, length-scan p none [], length-remove kept addr))
      ]

  length-insert :
      (p p' : Pool T) (key : Bytes) (conn : PoolResource T)
      → length p ≤ max_resources
      → insert p key conn ≡ some p'
      → length p' ≤ max_resources
  unfolding insert
  length-insert p p' key conn h e = ground (arith, length-put p key conn, length-remove_lru p p')

  scan-IsMap :
      (p : Pool T) (found : Option (Bytes × ℕ)) (kept : Pool T)
      → IsMap kept
      → IsMap (scan p found kept).1
  unfolding scan
  scan-IsMap [] found kept v = v
  scan-IsMap ((k, c) ∷ p) found kept v =
      scan-IsMap p (least found k c) (put kept k c) (put-IsMap kept k c v)

  remove_lru-IsMap : (p p' : Pool T) → remove_lru p ≡ some p' → IsMap p'
  unfolding remove_lru
  remove_lru-IsMap p p' e =
      let addr = least_used_addr (scan p none []).0 in
      let kept = (scan p none []).1 in
      elim (Option-cases (lookup kept addr)) [
        | inl absent ↦ let bad : none ≡ some p' = rw (absent, remove_lru) at e in cc
        | inr (c, here) ↦
            subst IsMap (some-injective _ _ (rw (here, remove_lru) at e))
              (remove-IsMap kept addr (scan-IsMap p none [] tt))
      ]

  -- The invariant of a pool: no address twice, and no more than the maximum.
  abbrev pub IsPool : Pool T → Type 0
  IsPool p = IsMap p × (length p ≤ max_resources)

  -- An insertion that succeeds keeps the addresses distinct and their number at most the maximum.
  pub insert-IsPool :
      (p p' : Pool T) (key : Bytes) (conn : PoolResource T)
      → IsPool p
      → insert p key conn ≡ some p'
      → IsPool p'
  unfolding insert
  insert-IsPool p p' key conn v e = elim (Bool-cases (length p == max_resources)) [
    | inl full ↦ (remove_lru-IsMap p p' (rw (full, insert) at e), length-insert p p' key conn v.1 e)
    | inr room ↦ (
      subst IsMap (some-injective _ _ (rw (room, insert) at e)) (put-IsMap p key conn v.0),
      length-insert p p' key conn v.1 e,
    )
  ]

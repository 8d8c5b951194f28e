-- ===== src/Client/ConnectionPool/Eviction.antt =====
-- What an insertion does when the pool is full, and when it is not.
use mathlib.Core.Option.{some-injective}
use mathlib.Core.Path.{subst}
use wruster.Base.{
  ℕ, ◌+◌, ◌≤◌, ◌≡◌, ◌≢◌, ◌⊎◌, refl, sym, ap, ◌∙◌, inl, inr, true, false, Option, none, some, [],
  ◌∷◌, Bytes, if◌then◌else◌, equal, equal_iff, equal_refl, arith, Bool-cases, ◌==◌, length, ltb,
}
use wruster.Client.ConnectionPool.Lookup.{IsMap, lookup-put, lookup-remove, or_else, or_else-none}
use wruster.Client.ConnectionPool.{
  PoolResource, Pool, max_resources, lookup, remove, put, least, least_used_addr, scan, remove_lru,
  insert, get,
}

module _ {T : Type 0} where
  -- Putting the drained connections back keeps what is found.
  lookup-scan :
      (p : Pool T) (found : Option (Bytes × ℕ)) (kept : Pool T) (key : Bytes)
      → IsMap p
      → lookup (scan p found kept).1 key ≡ or_else (lookup p key) (lookup kept key)
  unfolding scan lookup
  lookup-scan [] found kept key v = refl
  lookup-scan ((k, c) ∷ p) found kept key v = ground (
    arith,
    lookup-scan p (least found k c) (put kept k c) key v.1,
    lookup-put kept k key c,
    equal_iff k key,
    v.0,
  )

  -- `a` was used at `t`, and nothing in the pool before.
  pub record IsLeast (p : Pool T) (a : Bytes) (c : PoolResource T) : Type 0 where
    pub found : lookup p a ≡ some c
    pub least : (j : Bytes) (d : PoolResource T) → lookup p j ≡ some d → c.last_used ≤ d.last_used

  least-older :
      (a k : Bytes) (t : ℕ) (c : PoolResource T)
      → ltb c.last_used t ≡ true
      → least (some (a, t)) k c ≡ some (k, c.last_used)
  unfolding least
  least-older a k t c e = rw e

  least-newer :
      (a k : Bytes) (t : ℕ) (c : PoolResource T)
      → ltb c.last_used t ≡ false
      → least (some (a, t)) k c ≡ some (a, t)
  unfolding least
  least-newer a k t c e = rw e

  -- Where the least one comes from: it is the one before, or one of the pool.
  abbrev From : Pool T → Bytes → ℕ → Bytes → ℕ → Type 0
  From p a t b s =
      ((a ≡ b) × (t ≡ s)) ⊎ ((c : PoolResource T) × (lookup p b ≡ some c) × (c.last_used ≡ s))

  abbrev IsBelow : Pool T → ℕ → Type 0
  IsBelow p s = (j : Bytes) (d : PoolResource T) → lookup p j ≡ some d → s ≤ d.last_used

  IsBelow-cons :
      (p : Pool T) (k : Bytes) (c : PoolResource T) (s : ℕ)
      → s ≤ c.last_used
      → IsBelow p s
      → IsBelow ((k, c) ∷ p) s
  unfolding lookup
  IsBelow-cons p k c s h all j d e = elim (Bool-cases (equal k j)) [
    | inl here ↦ ground (arith, some-injective _ _ (rw here at e))
    | inr there ↦ all j d (rw there at e)
  ]

  IsBelow-nil : (s : ℕ) → IsBelow [] s
  unfolding lookup
  IsBelow-nil s j d e = cc

  From-head :
      (p : Pool T) (k a b : Bytes) (c : PoolResource T) (t s : ℕ)
      → lookup p k ≡ none
      → From p k c.last_used b s
      → From ((k, c) ∷ p) a t b s
  unfolding lookup
  From-head p k a b c t s fresh (inl (e, f)) = inr (c, rw (e, equal_refl b), f)
  From-head p k a b c t s fresh (inr (d, e, f)) = elim (Bool-cases (equal k b)) [
    | inl here ↦ ground (arith, equal_iff k b)
    | inr there ↦ inr (d, rw there e, f)
  ]

  From-tail :
      (p : Pool T) (k a b : Bytes) (c : PoolResource T) (t s : ℕ)
      → lookup p k ≡ none
      → From p a t b s
      → From ((k, c) ∷ p) a t b s
  unfolding lookup
  From-tail p k a b c t s fresh (inl e) = inl e
  From-tail p k a b c t s fresh (inr (d, e, f)) = elim (Bool-cases (equal k b)) [
    | inl here ↦ ground (arith, equal_iff k b)
    | inr there ↦ inr (d, rw there e, f)
  ]

  scan-least :
      (p kept : Pool T) (a : Bytes) (t : ℕ)
      → IsMap p
      → (b : Bytes) × (s : ℕ) × ((scan p (some (a, t)) kept).0 ≡ some (b, s))
        × (s ≤ t)
        × IsBelow p s
        × From p a t b s
  unfolding scan
  scan-least [] kept a t v = (a, t, refl, omega arith, IsBelow-nil t, inl (refl, refl))
  scan-least ((k, c) ∷ p) kept a t v = elim (Bool-cases (ltb c.last_used t)) [
    | inl e ↦
        let (b, s, run, below, all, from) = scan-least p (put kept k c) k c.last_used v.1 in
        let first = ap (λ f. (scan p f (put kept k c)).0) (least-older a k t c e) in
        (
          b,
          s,
          first ∙ run,
          ground arith,
          IsBelow-cons p k c s below all,
          From-head p k a b c t s v.0 from,
        )
    | inr e ↦
        let (b, s, run, below, all, from) = scan-least p (put kept k c) a t v.1 in
        let first = ap (λ f. (scan p f (put kept k c)).0) (least-newer a k t c e) in
        (
          b,
          s,
          first ∙ run,
          below,
          IsBelow-cons p k c s (ground arith) all,
          From-tail p k a b c t s v.0 from,
        )
  ]

  -- The pool without its least recently used connection.
  abbrev pub Evicts : Pool T → Pool T → Type 0
  Evicts p p' =
      (a : Bytes) × (c : PoolResource T) × IsLeast p a c
      × ((j : Bytes) → lookup p' j ≡ (if equal a j then none else lookup p j))

  From-here :
      (p : Pool T) (a b : Bytes) (t s : ℕ)
      → t ≢ s
      → From p a t b s
      → (c : PoolResource T) × (lookup p b ≡ some c) × (c.last_used ≡ s)
  From-here p a b t s ne (inl e) = absurd (ne e.1)
  From-here p a b t s ne (inr here) = here

  remove_lru-found :
      (p : Pool T) (b : Bytes) (s : ℕ) (c : PoolResource T)
      → (scan p none []).0 ≡ some (b, s)
      → lookup (scan p none []).1 b ≡ some c
      → remove_lru p ≡ some (remove (scan p none []).1 b)
  unfolding remove_lru
  remove_lru-found p b s c run here =
      rw (run, here, remove_lru)
        (ap (λ f. some (remove (scan p none []).1 (least_used_addr f))) run)

  IsLeast-of_scan :
      (p : Pool T) (k b : Bytes) (c : PoolResource T) (s : ℕ)
      → lookup p k ≡ none
      → s ≤ c.last_used
      → IsBelow p s
      → From p k c.last_used b s
      → (d : PoolResource T) × IsLeast ((k, c) ∷ p) b d
  unfolding lookup
  IsLeast-of_scan p k b c s fresh below all from =
      let (d, here, used) =
        From-here ((k, c) ∷ p) [] b (s + 1) s (omega arith)
          (From-head p k [] b c (s + 1) s fresh from) in
      (
        d,
        record {
          found = here;
          least = λ j g e.
              subst (λ u. u ≤ g.last_used) (sym used) (IsBelow-cons p k c s below all j g e);
        },
      )

  or_else-nil : (o : Option (PoolResource T)) (j : Bytes) → or_else o (lookup [] j) ≡ o
  unfolding lookup
  or_else-nil o j = or_else-none o

  length-ne-nil : (p : Pool T) → length p ≡ max_resources → p ≢ []
  length-ne-nil [] full e = absurd (omega arith)
  length-ne-nil (x ∷ p) full e = cc

  remove_lru-Evicts :
      (p : Pool T) → IsMap p → p ≢ [] → (p' : Pool T) × (remove_lru p ≡ some p') × Evicts p p'
  unfolding remove_lru scan least
  remove_lru-Evicts [] v ne = absurd (ne refl)
  remove_lru-Evicts ((k, c) ∷ p) v ne =
      let (b, s, run, below, all, from) = scan-least p (put [] k c) k c.last_used v.1 in
      let (d, lru) = IsLeast-of_scan p k b c s v.0 below all from in
      let kept = (scan ((k, c) ∷ p) none []).1 in
      let same : (j : Bytes) → lookup kept j ≡ lookup ((k, c) ∷ p) j =
        λ j. lookup-scan ((k, c) ∷ p) none [] j v ∙ or_else-nil (lookup ((k, c) ∷ p) j) j in
      (
        remove kept b,
        remove_lru-found ((k, c) ∷ p) b s d run (same b ∙ lru.found),
        (b, d, lru, λ j. lookup-remove kept b j ∙ ap (λ o. if equal b j then none else o) (same j)),
      )

  -- An insertion into a full pool, in which no address stands twice, takes its least recently used
  -- connection out, and does not put the new one in.
  pub insert-Evicts :
      (p : Pool T) (key : Bytes) (conn : PoolResource T)
      → IsMap p
      → length p ≡ max_resources
      → (p' : Pool T) × (insert p key conn ≡ some p') × Evicts p p'
  unfolding insert
  insert-Evicts p key conn v full =
      let (p', run, evicts) = remove_lru-Evicts p v (length-ne-nil p full) in
      let test : (length p == max_resources) ≡ true = ground arith in (p', rw (test, run), evicts)

  -- An insertion into a pool that is not full succeeds, and the connection is then got back by its
  -- address; every other address has what it had.
  get-insert :
      (p : Pool T) (key j : Bytes) (conn : PoolResource T)
      → length p ≢ max_resources
      → (p' : Pool T) × (insert p key conn ≡ some p')
        × ((get p' j).1 ≡ (if equal key j then some conn else (get p j).1))
  unfolding insert get
  get-insert p key j conn room =
      let test : (length p == max_resources) ≡ false = ground arith in
      (put p key conn, rw test, lookup-put p key j conn)

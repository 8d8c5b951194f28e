-- ===== src/Client/ConnectionPool/Expiry/Ending.antt =====
-- The drop of a pool, and what its resources are at any time.
use mathlib.Core.Path.{subst}
use wruster.Base.{
  ℕ, zero, suc, ◌<◌, ◌≡◌, refl, sym, ◌⊎◌, inl, inr, Bool, true, false, Option, arith,
}
use wruster.Base.Schedule.{Settles, settled}
use wruster.Client.ConnectionPool.Expiry.{
  Worker, checking, expiring, parking, parked, ended, Owner, using, stopping, joining, joined, Pool,
  new, after_check, after_park, Prompt, checks, expires, parks, wakes, gets, inserts, drains,
  stores, unparks, joins, Step, prompt, times_out, Reachable, start, next,
}

-- A thread that is not past its sleep finds the token.
abbrev Woken : Bool → Worker → Type 0
Woken token checking = Unit
Woken token ended = Unit
Woken token _ = token ≡ true

-- From the drop on the flag is set; once the thread was unparked it finds the token, and once it was
-- joined it has ended.
abbrev Warned : Owner → Bool → Bool → Worker → Type 0
Warned using stop token worker = Unit
Warned stopping stop token worker = stop ≡ true
Warned joining stop token worker = (stop ≡ true) × Woken token worker
Warned joined stop token worker = worker ≡ ended

-- The steps that the thread still makes after it was unparked.
abbrev left : Worker → ℕ
left expiring = 4
left parking = 3
left parked = 2
left checking = 1
left ended = 0

token-Woken : (w : Worker) → Woken true w
token-Woken checking = tt
token-Woken ended = tt
token-Woken expiring = refl
token-Woken parking = refl
token-Woken parked = refl

checks-Warned :
    (o : Owner) (stop token : Bool) (w : Worker)
    → w ≡ checking
    → Warned o stop token w
    → Warned o stop token (after_check stop)
checks-Warned using stop token w e v = tt
checks-Warned stopping stop token w e v = v
checks-Warned joining stop token w e (set, _) =
    (set, subst (λ b. Woken token (after_check b)) (sym set) tt)
checks-Warned joined stop token w e v = cc

expires-Warned :
    (o : Owner) (stop token : Bool) (w : Worker)
    → w ≡ expiring
    → Warned o stop token w
    → Warned o stop token parking
expires-Warned using stop token w e v = tt
expires-Warned stopping stop token w e v = v
expires-Warned joining stop token w e (set, woken) = (set, subst (Woken token) e woken)
expires-Warned joined stop token w e v = cc

parks-Warned :
    (o : Owner) (stop token : Bool) (w : Worker)
    → w ≡ parking
    → Warned o stop token w
    → Warned o stop false (after_park token)
parks-Warned using stop token w e v = tt
parks-Warned stopping stop token w e v = v
parks-Warned joining stop token w e (set, woken) =
    (set, subst (λ b. Woken false (after_park b)) (sym (subst (Woken token) e woken)) tt)
parks-Warned joined stop token w e v = cc

wakes-Warned :
    (o : Owner) (stop token token' : Bool) (w : Worker)
    → w ≡ parked
    → Warned o stop token w
    → Warned o stop token' checking
wakes-Warned using stop token token' w e v = tt
wakes-Warned stopping stop token token' w e v = v
wakes-Warned joining stop token token' w e (set, _) = (set, tt)
wakes-Warned joined stop token token' w e v = cc

left-lt : (w : Worker) → left w < 5
left-lt expiring = omega arith
left-lt parking = omega arith
left-lt parked = omega arith
left-lt checking = omega arith
left-lt ended = omega arith

module _ {T : Type 0} where
  abbrev IsWarned : Pool T → Type 0
  IsWarned p = Warned p.owner p.stop p.token p.worker

  Warned-owner :
      (p : Pool T) (o : Owner) → p.owner ≡ o → IsWarned p → Warned o p.stop p.token p.worker
  Warned-owner p o e v = subst (λ o. Warned o p.stop p.token p.worker) e v

  Prompt-IsWarned : {p p' : Pool T} → Prompt p p' → IsWarned p → IsWarned p'
  Prompt-IsWarned (checks p e) v = checks-Warned p.owner p.stop p.token p.worker e v
  Prompt-IsWarned (expires p now e) v = expires-Warned p.owner p.stop p.token p.worker e v
  Prompt-IsWarned (parks p e) v = parks-Warned p.owner p.stop p.token p.worker e v
  Prompt-IsWarned (wakes p e h) v = wakes-Warned p.owner p.stop p.token false p.worker e v
  Prompt-IsWarned (gets p key e) v = v
  Prompt-IsWarned (inserts p key conn resources e h) v = v
  Prompt-IsWarned (drains p e) v = v
  Prompt-IsWarned (stores p e) v = refl
  Prompt-IsWarned (unparks p e) v = (Warned-owner p stopping e v, token-Woken p.worker)
  Prompt-IsWarned (joins p e h) v = h

  Reachable-IsWarned : {idle : Option ℕ} {p : Pool T} → Reachable idle p → IsWarned p
  unfolding new
  Reachable-IsWarned start = tt
  Reachable-IsWarned (next before (prompt s)) = Prompt-IsWarned s (Reachable-IsWarned before)
  Reachable-IsWarned (next before (times_out p e)) =
      wakes-Warned p.owner p.stop p.token p.token p.worker e (Reachable-IsWarned before)

  -- The drop is over: the thread has ended.
  abbrev pub IsOver : Pool T → Type 0
  IsOver p = (p.owner ≡ joined) × (p.worker ≡ ended)

  drop_step :
      (p : Pool T) (w : Worker)
      → p.worker ≡ w
      → p.owner ≡ joining
      → Warned joining p.stop p.token p.worker
      → (p' : Pool T) × Prompt p p'
  drop_step p checking e d v = (_, checks p e)
  drop_step p expiring e d v = (_, expires p 0 e)
  drop_step p parking e d v = (_, parks p e)
  drop_step p parked e d (_, woken) = (_, wakes p e (subst (Woken p.token) e woken))
  drop_step p ended e d v = (_, joins p d e)

  -- A step of the drop goes on with it, with less left for the thread, or ends it.
  Prompt-drops :
      {p p' : Pool T}
      → Prompt p p'
      → p.owner ≡ joining
      → Warned joining p.stop p.token p.worker
      → ((p'.owner ≡ joining) × (left p'.worker < left p.worker)) ⊎ IsOver p'
  Prompt-drops (checks p e) d (set, _) = inl (d, ground (arith, e, set))
  Prompt-drops (expires p now e) d v = inl (d, ground (arith, e))
  Prompt-drops (parks p e) d (_, woken) = inl (d, ground (arith, e, subst (Woken p.token) e woken))
  Prompt-drops (wakes p e h) d v = inl (d, ground (arith, e))
  Prompt-drops (gets p key e) d v = cc
  Prompt-drops (inserts p key conn resources e h) d v = cc
  Prompt-drops (drains p e) d v = cc
  Prompt-drops (stores p e) d v = cc
  Prompt-drops (unparks p e) d v = cc
  Prompt-drops (joins p e h) d v = inr (refl, h)

  Step-drops :
      {p p' : Pool T}
      → Step p p'
      → p.owner ≡ joining
      → Warned joining p.stop p.token p.worker
      → ((p'.owner ≡ joining) × (left p'.worker < left p.worker)) ⊎ IsOver p'
  Step-drops (prompt s) d v = Prompt-drops s d v
  Step-drops (times_out p e) d v = inl (d, ground (arith, e))

  unparked-settles_within :
      {idle : Option ℕ} (n : ℕ) (p : Pool T)
      → Reachable idle p
      → p.owner ≡ joining
      → left p.worker < n
      → Settles Prompt Step IsOver n p
  unparked-settles_within zero p r d less = absurd (omega (arith, less))
  unparked-settles_within (suc n) p r d less =
      let v = Warned-owner p joining d (Reachable-IsWarned r) in
      inr (
        drop_step p p.worker refl d v,
        λ p' step. elim (Step-drops step d v) [
          | inl (again, fewer) ↦
              unparked-settles_within n p' (next r step) again (omega (arith, fewer, less))
          | inr over ↦ settled Prompt Step IsOver n p' over
        ],
      )

  -- Once the drop of a pool has unparked the thread, it is over within five steps, with the thread at
  -- its end, however the two interleave; and until then one of them can make a step that does not wait
  -- for the end of a cycle: the unparking is not lost.
  pub unparked-settles :
      {idle : Option ℕ} (p : Pool T)
      → Reachable idle p
      → p.owner ≡ joining
      → Settles Prompt Step IsOver 5 p
  unparked-settles p r d = unparked-settles_within 5 p r d (left-lt p.worker)

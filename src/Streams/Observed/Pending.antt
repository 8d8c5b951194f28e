-- ===== src/Streams/Observed/Pending.antt =====
-- wruster/src/streams/observable.rs: the list holds the streams that are there.
use wruster.Base.{
  ℕ, suc, ◌^◌, ◌≡◌, ◌≢◌, ◌<◌, ◌∙◌, refl, sym, ap, List, [], ◌∷◌, ◌==◌, All, arith, Bool-cases, inl,
  inr,
}
use wruster.Streams.Observed.{
  new, remove, insert, track, dropped, Streams, set_handles, free, World, track_stream, Step,
  clones, releases, drops,
}

-- The keys of the streams.
abbrev pub keys : Streams → List ℕ
keys [] = []
keys ((k, n) ∷ streams) = k ∷ keys streams

-- From a new list, with `n` streams tracked.
pub data Reachable : ℕ → World → Type 0 where
  starts : Reachable 0 (record { list = new; streams = [] })
  tracked : {n : ℕ} {w : World} → Reachable n w → Reachable (suc n) (track_stream w)
  moved : {n : ℕ} {w w' : World} → Reachable n w → Step w w' → Reachable n w'

abbrev pub Lacks : ℕ → List ℕ → Type 0
Lacks key ks = All (λ k. k ≢ key) ks

abbrev pub IsDistinct : List ℕ → Type 0
IsDistinct [] = Unit {0}
IsDistinct (k ∷ ks) = Lacks k ks × IsDistinct ks

-- The items are the keys of the streams, each once, and the next key is above them.
record IsValid (n : ℕ) (w : World) : Type 0 where
  pub same : w.list.items ≡ keys w.streams
  pub next : w.list.next_key ≡ n
  pub below : All (λ k. k < n) (keys w.streams)
  pub distinct : IsDistinct (keys w.streams)

remove-Lacks : (key : ℕ) (ks : List ℕ) → Lacks key ks → remove key ks ≡ ks
unfolding remove
remove-Lacks key [] h = refl
remove-Lacks key (k ∷ ks) h = ground (arith, h.0, remove-Lacks key ks h.1)

All-remove : (P : ℕ → Type 0) (key : ℕ) (ks : List ℕ) → All P ks → All P (remove key ks)
unfolding remove
All-remove P key [] h = tt
All-remove P key (k ∷ ks) h = elim (Bool-cases (k == key)) [
  | inl here ↦ rw here (All-remove P key ks h.1)
  | inr there ↦ rw there (h.0, All-remove _ key ks h.1)
]

remove-IsDistinct : (key : ℕ) (ks : List ℕ) → IsDistinct ks → IsDistinct (remove key ks)
unfolding remove
remove-IsDistinct key [] h = tt
remove-IsDistinct key (k ∷ ks) h = elim (Bool-cases (k == key)) [
  | inl here ↦ rw here (remove-IsDistinct key ks h.1)
  | inr there ↦ rw there (All-remove _ key ks h.0, remove-IsDistinct key ks h.1)
]

keys-set_handles : (key n : ℕ) (streams : Streams) → keys (set_handles key n streams) ≡ keys streams
unfolding set_handles
keys-set_handles key n [] = refl
keys-set_handles key n ((k, m) ∷ streams) = ground (arith, keys-set_handles key n streams)

keys-free : (key : ℕ) (streams : Streams) → keys (free key streams) ≡ remove key (keys streams)
unfolding free remove
keys-free key [] = refl
keys-free key ((k, m) ∷ streams) = ground (arith, keys-free key streams)

All-above : (n : ℕ) (ks : List ℕ) → All (λ k. k < n) ks → All (λ k. k < suc n) ks × Lacks n ks
All-above n [] h = (tt, tt)
All-above n (k ∷ ks) h =
    let (above, lacks) = All-above n ks h.1 in
    ((omega (arith, h.0), above), (λ e. omega (arith, h.0, e), lacks))

track-IsValid :
    (n : ℕ) (w : World) → suc n < 2 ^ 64 → IsValid n w → IsValid (suc n) (track_stream w)
unfolding track_stream track insert
track-IsValid n w small v =
    let (above, lacks) = All-above n (keys w.streams) v.below in
    let fresh = remove-Lacks n (keys w.streams) lacks in
    record {
      same = rw (v.next, v.same, fresh);
      next = rw v.next (omega (arith, small));
      below = (omega (arith, v.next), above);
      distinct = (rw v.next lacks, v.distinct);
    }

set_handles-IsValid :
    (m : ℕ) (w : World) (key n : ℕ)
    → IsValid m w
    → IsValid m (record w { streams = set_handles key n w.streams })
set_handles-IsValid m w key n v =
    let kept = keys-set_handles key n w.streams in
    record {
      same = v.same ∙ sym kept;
      next = v.next;
      below = rw kept v.below;
      distinct = rw kept v.distinct;
    }

Step-IsValid : (n : ℕ) {w w' : World} → Step w w' → IsValid n w → IsValid n w'
Step-IsValid n {w} (clones key m h) v = set_handles-IsValid n w key (suc (suc m)) v
Step-IsValid n {w} (releases key m h) v = set_handles-IsValid n w key m v
Step-IsValid n {w} (drops key h) v =
    let freed = keys-free key w.streams in
    record {
      same = unfold dropped in (ap (remove key) v.same ∙ sym freed);
      next = unfold dropped in v.next;
      below = rw freed (All-remove _ key (keys w.streams) v.below);
      distinct = rw freed (remove-IsDistinct key (keys w.streams) v.distinct);
    }

Reachable-IsValid : (n : ℕ) (w : World) → n < 2 ^ 64 → Reachable n w → IsValid n w
Reachable-IsValid _ _ few starts =
    unfold new in record { same = refl; next = refl; below = tt; distinct = tt }
Reachable-IsValid _ _ few (tracked {n} {w} before) =
    track-IsValid n w (omega (arith, few)) (Reachable-IsValid n w (omega (arith, few)) before)
Reachable-IsValid n _ few (moved {w = w} before step) =
    Step-IsValid n step (Reachable-IsValid n w few before)

-- As long as fewer than 2 ^ 64 streams were tracked, the list has an item for each stream whose
-- drop has not ended, and no other.
pub Reachable-items :
    (n : ℕ) (w : World)
    → n < 2 ^ 64
    → Reachable n w
    → (w.list.items ≡ keys w.streams) × IsDistinct w.list.items
Reachable-items n w few reached =
    let v = Reachable-IsValid n w few reached in (v.same, rw v.same v.distinct)

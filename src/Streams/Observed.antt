-- ===== src/Streams/Observed.antt =====
-- wruster/src/streams/observable.rs: `ObservedStreamList`. A stream is named by its key, and a weak
-- reference to it is that name. The handles of a stream are counted as `Arc` counts them; a stream
-- without a handle is being dropped until its `Drop` has called `dropped`.
pub mod Pending
use wruster.Base
use wruster.Base.{
  ℕ, zero, suc, ◌+◌, ◌%◌, ◌^◌, ◌≡◌, ◌<◌, Option, none, some, List, [], ◌∷◌, ◌==◌, if◌then◌else◌,
}

pub record ObservedStreamList : Type 0 where
  pub items : List ℕ
  pub next_key : ℕ

unfoldable pub new : ObservedStreamList
new = record { items = []; next_key = 0 }

-- The hash map of the items, without a key.
unfoldable pub remove : ℕ → List ℕ → List ℕ
remove key [] = []
remove key (k ∷ ks) = let rest = remove key ks in if k == key then rest else k ∷ rest

unfoldable pub insert : ℕ → List ℕ → List ℕ
insert key ks = key ∷ remove key ks

-- `ObservedStreamList::track`: the key of the new stream, and the list.
unfoldable pub track : ObservedStreamList → ℕ × ObservedStreamList
track list = (
  list.next_key,
  record { items = insert list.next_key list.items; next_key = (list.next_key + 1) % 2 ^ 64 },
)

unfoldable pub length : ObservedStreamList → ℕ
length list = Base.length list.items

unfoldable pub dropped : ℕ → ObservedStreamList → ObservedStreamList
dropped key list = record list { items = remove key list.items }

unfoldable pub drain : ObservedStreamList → List ℕ × ObservedStreamList
drain list = (list.items, record list { items = [] })

-- The streams with the number of their handles.
abbrev pub Streams : Type 0
Streams = List (ℕ × ℕ)

unfoldable pub handles : Streams → ℕ → Option ℕ
handles [] key = none
handles ((k, n) ∷ streams) key = if k == key then some n else handles streams key

unfoldable pub set_handles : ℕ → ℕ → Streams → Streams
set_handles key n [] = []
set_handles key n ((k, m) ∷ streams) =
    let rest = set_handles key n streams in if k == key then (k, n) ∷ rest else (k, m) ∷ rest

unfoldable pub free : ℕ → Streams → Streams
free key [] = []
free key ((k, n) ∷ streams) =
    let rest = free key streams in if k == key then rest else (k, n) ∷ rest

pub record World : Type 0 where
  pub list : ObservedStreamList
  pub streams : Streams

-- A stream is tracked, and `track` returns its first handle.
unfoldable pub track_stream : World → World
track_stream w =
    let (key, list) = track w.list in record { list = list; streams = (key, 1) ∷ w.streams }

-- What happens to the streams of a list: a handle is cloned, a handle goes away, and the stream
-- without handles takes itself out of the list.
pub data Step (w : World) : World → Type 0 where
  clones :
      (key n : ℕ)
      → handles w.streams key ≡ some (suc n)
      → Step w (record w { streams = set_handles key (suc (suc n)) w.streams })
  releases :
      (key n : ℕ)
      → handles w.streams key ≡ some (suc n)
      → Step w (record w { streams = set_handles key n w.streams })
  drops :
      (key : ℕ)
      → handles w.streams key ≡ some 0
      → Step w (record { list = dropped key w.list; streams = free key w.streams })

-- `Weak::upgrade`
unfoldable pub upgrade : Streams → ℕ → Option ℕ
upgrade streams key = elim (handles streams key) [
  | none ↦ none
  | some n ↦ if n == 0 then none else some key
]

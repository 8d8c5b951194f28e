-- ===== src/Server/Accepting/Stopping.antt =====
-- wruster/src/lib.rs: the accepting loop ends with the round in which it sees that it is to stop.
use mathlib.Core.Path.{subst}
use wruster.Base.{
  ℕ, zero, suc, ◌+◌, ◌*◌, ◌≤◌, ◌<◌, ◌≡◌, ◌≢◌, refl, true, Option, none, some, List, [], ◌∷◌, arith,
  length,
}
use wruster.Http.Io.{IoResult}
use wruster.Server.Accepting.{
  Event, Verdict, other_key, unwatched, unbuilt, breaks, refuses, connects, takes, busy, run_panics,
  Place, waiting, handling, submitting, answering, closing, Turn, goes, finishes, clone_at, clone,
  let_go_at, let_go, handle_event, after_run, after_events, close, turn,
}
use wruster.Streams.Observed.{
  World, Step, clones, releases, drops, track_stream, track, insert, drain, dropped, handles,
  upgrade, remove,
}

-- What can be reached from a place while the flag `stop` is set, with the number of turns.
pub data Stopping (start : Place) (first : World) : ℕ → Place → World → Type 0 where
  begins : Stopping start first 0 start first
  moves :
      {k : ℕ} {p : Place} {w w' : World}
      → Stopping start first k p w
      → Step w w'
      → Stopping start first k p w'
  turns :
      {k : ℕ} {p : Place} {w : World} (got : IoResult (List Event)) (p' : Place) (w' : World)
      → Stopping start first k p w
      → turn got true p w ≡ goes p' w'
      → Stopping start first (suc k) p' w'

abbrev pub listed : World → ℕ
listed w = length w.list.items

-- A bound on the turns that are left.
abbrev left : Place → World → ℕ
left waiting w = 0
left (handling events) w = 4 * length events + listed w + 2
left (submitting verdict key events) w = 4 * length events + listed w + 4
left (answering key events) w = 4 * length events + listed w + 3
left (closing pending down) w = length pending + 1

length-remove-le : (key : ℕ) (ks : List ℕ) → length (remove key ks) ≤ length ks
unfolding remove
length-remove-le key [] = omega arith
length-remove-le key (k ∷ ks) = ground (arith, length-remove-le key ks)

Step-listed : {w w' : World} → Step w w' → listed w' ≤ listed w
unfolding dropped
Step-listed (clones key n e) = omega arith
Step-listed (releases key n e) = omega arith
Step-listed {w} (drops key e) = length-remove-le key w.list.items

Step-left : (p : Place) {w w' : World} → Step w w' → left p w' ≤ left p w
Step-left waiting step = omega arith
Step-left (handling events) step = omega (arith, Step-listed step)
Step-left (submitting verdict key events) step = omega (arith, Step-listed step)
Step-left (answering key events) step = omega (arith, Step-listed step)
Step-left (closing pending down) step = omega arith

clone_at-listed : (key : ℕ) (w : World) (o : Option ℕ) → listed (clone_at key w o) ≡ listed w
unfolding clone_at
clone_at-listed key w none = refl
clone_at-listed key w (some zero) = refl
clone_at-listed key w (some (suc n)) = refl

let_go_at-listed : (key : ℕ) (w : World) (o : Option ℕ) → listed (let_go_at key w o) ≤ listed w
unfolding let_go_at dropped
let_go_at-listed key w none = omega arith
let_go_at-listed key w (some zero) = omega arith
let_go_at-listed key w (some (suc zero)) = length-remove-le key w.list.items
let_go_at-listed key w (some (suc (suc n))) = omega arith

let_go-listed : (key : ℕ) (w : World) → listed (let_go key w) ≤ listed w
unfolding let_go
let_go-listed key w = let_go_at-listed key w (handles w.streams key)

connected-listed : (key : ℕ) (w : World) → listed (clone key (track_stream w)) ≤ suc (listed w)
unfolding clone track_stream track insert
connected-listed key w =
    let w' = track_stream w in
    omega (
      arith,
      clone_at-listed key w' (handles w'.streams key),
      length-remove-le w.list.next_key w.list.items,
    )

-- A turn ends the loop or leaves fewer turns.
abbrev IsNearer : ℕ → Turn → Type 0
IsNearer n (goes waiting w) = ⊥
IsNearer n (goes p w) = left p w < n
IsNearer n (finishes outcome) = Unit

-- The loop is in a round.
abbrev IsInside : Place → Type 0
IsInside waiting = ⊥
IsInside _ = Unit

after_run-IsNearer :
    (n key : ℕ) (verdict : Verdict) (events : List Event) (w : World)
    → left (submitting verdict key events) w ≤ n
    → IsNearer n (after_run verdict key events w)
unfolding after_run
after_run-IsNearer n key takes events w low = omega (arith, let_go-listed key w, low)
after_run-IsNearer n key busy events w low = omega (arith, let_go-listed key w, low)
after_run-IsNearer n key run_panics events w low = tt

handle_event-IsNearer :
    (event : Event) (events : List Event) (w : World)
    → IsNearer (left (handling (event ∷ events)) w) (handle_event event events w)
unfolding handle_event
handle_event-IsNearer other_key events w = omega arith
handle_event-IsNearer (refuses e) events w = tt
handle_event-IsNearer unwatched events w = tt
handle_event-IsNearer unbuilt events w = omega arith
handle_event-IsNearer breaks events w = tt
handle_event-IsNearer (connects verdict) events w =
    omega (arith, connected-listed w.list.next_key w)

close-IsNearer :
    (o : Option ℕ) (key : ℕ) (pending down : List ℕ) (w : World)
    → IsNearer (left (closing (key ∷ pending) down) w) (close o pending down w)
unfolding close
close-IsNearer none key pending down w = omega arith
close-IsNearer (some k) key pending down w = omega arith

turn-IsNearer :
    (got : IoResult (List Event)) (p : Place) (w : World)
    → IsInside p
    → IsNearer (left p w) (turn got true p w)
unfolding turn after_events drain
turn-IsNearer got waiting w inside = absurd inside
turn-IsNearer got (handling []) w inside = omega arith
turn-IsNearer got (handling (event ∷ events)) w inside = handle_event-IsNearer event events w
turn-IsNearer got (submitting verdict key events) w inside =
    after_run-IsNearer (left (submitting verdict key events) w) key verdict events w (omega arith)
turn-IsNearer got (answering key events) w inside = omega (arith, let_go-listed key w)
turn-IsNearer got (closing [] down) w inside = tt
turn-IsNearer got (closing (key ∷ pending) down) w inside =
    close-IsNearer (upgrade w.streams key) key pending down w

nearer-IsInside :
    (n : ℕ) (p : Place) (w : World) → IsNearer n (goes p w) → IsInside p × (left p w < n)
nearer-IsInside n waiting w h = absurd h
nearer-IsInside n (handling events) w h = (tt, h)
nearer-IsInside n (submitting verdict key events) w h = (tt, h)
nearer-IsInside n (answering key events) w h = (tt, h)
nearer-IsInside n (closing pending down) w h = (tt, h)

left-positive : (p : Place) (w : World) → IsInside p → 0 < left p w
left-positive waiting w h = absurd h
left-positive (handling events) w h = omega arith
left-positive (submitting verdict key events) w h = omega arith
left-positive (answering key events) w h = omega arith
left-positive (closing pending down) w h = omega arith

Stopping-left :
    {start : Place} {first : World} (k : ℕ) (p : Place) (w : World)
    → Stopping start first k p w
    → IsInside start
    → IsInside p × (left p w + k ≤ left start first)
Stopping-left k p w begins inside = (inside, omega arith)
Stopping-left k p w (moves {w = v} before step) inside =
    let (here, low) = Stopping-left k p v before inside in
    (here, omega (arith, Step-left p step, low))
Stopping-left k p w (turns {k = j} {p = q} {w = v} got p' w' before e) inside =
    let (here, low) = Stopping-left j q v before inside in
    let (next, less) =
      nearer-IsInside (left q v) p' w'
        (subst (IsNearer (left q v)) e (turn-IsNearer got q v here)) in
    (next, omega (arith, less, low))

-- While the flag `stop` is set, the loop that handles the events of a round does not go back to the
-- poller: whatever the events are and however the threads of the connections move, the turns that it
-- makes without ending are fewer than four for each event that is left, one for each stream in the
-- list, and two.
pub Stopping-turns :
    (events : List Event) (first : World) (k : ℕ) (p : Place) (w : World)
    → Stopping (handling events) first k p w
    → (p ≢ waiting) × (k < 4 * length events + listed first + 2)
Stopping-turns events first k p w run =
    let (inside, low) = Stopping-left k p w run tt in
    (λ same. subst IsInside same inside, omega (arith, low, left-positive p w inside))

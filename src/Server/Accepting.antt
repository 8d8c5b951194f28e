-- ===== src/Server/Accepting.antt =====
-- wruster/src/lib.rs: `Server::accept_connections`, as the turns of its thread, between which the
-- threads of the connections move. What the poller gives, how each connection is accepted, what the
-- pool does with its action and the flag `stop` are given to the turns.
pub mod Builders
pub mod Handles
pub mod Loop
pub mod Stopping
use wruster.Base.{◌≡◌, ℕ, zero, suc, Bool, true, false, Option, none, some, List, [], ◌∷◌, ◌++◌}
use wruster.Http.Error.{IoError, ok, err, panic, running}
use wruster.Http.Io.{IoResult}
use wruster.Streams.Observed.{
  World, Step, track_stream, drain, upgrade, handles, set_handles, free, dropped,
}

-- What `Pool::run` does with the action of a connection: it takes it, gives it back, or panics.
pub data Verdict : Type 0 where
  takes busy run_panics : Verdict

-- An event of another key; a connection that is not accepted; one after which the listener cannot be
-- watched again, which is a panic; one whose stream cannot be made; one at which the builder of
-- streams panics; one that is tracked and given to the pool.
pub data Event : Type 0 where
  other_key unwatched unbuilt breaks : Event
  refuses : IoError → Event
  connects : Verdict → Event

-- Where the thread is: at the poller; before the next event of a round; in `Pool::run`, with the key of
-- the stream; in `handle_busy`; at the streams that are left to shut down, with those that were.
pub data Place : Type 0 where
  waiting : Place
  handling : List Event → Place
  submitting : Verdict → ℕ → List Event → Place
  answering : ℕ → List Event → Place
  closing : List ℕ → List ℕ → Place

-- How the loop ends: with an error, with the streams that were shut down, with a panic, or not.
pub data Outcome : Type 0 where
  failed : IoError → World → Outcome
  stopped : List ℕ → World → Outcome
  panicked unending : Outcome

pub data Turn : Type 0 where
  goes : Place → World → Turn
  finishes : Outcome → Turn

-- A handle is cloned.
unfoldable pub clone_at : ℕ → World → Option ℕ → World
clone_at key w (some (suc n)) = record w { streams = set_handles key (suc (suc n)) w.streams }
clone_at key w _ = w

unfoldable pub clone : ℕ → World → World
clone key w = clone_at key w (handles w.streams key)

-- A handle goes away; the stream goes with the last one, and takes itself out of the list.
unfoldable pub let_go_at : ℕ → World → Option ℕ → World
let_go_at key w none = w
let_go_at key w (some zero) = w
let_go_at key w (some (suc zero)) = record {
  list = dropped key w.list;
  streams = free key (set_handles key 0 w.streams);
}
let_go_at key w (some (suc (suc n))) = record w { streams = set_handles key (suc n) w.streams }

unfoldable pub let_go : ℕ → World → World
let_go key w = let_go_at key w (handles w.streams key)

-- The events of a round, or the end of the loop over them. A connection has two handles at `Pool::run`,
-- that of its action and `local_action_stream`.
unfoldable pub handle_event : Event → List Event → World → Turn
handle_event other_key events w = goes (handling events) w
handle_event (refuses e) events w = finishes (failed e w)
handle_event unwatched events w = finishes panicked
handle_event unbuilt events w = goes (handling events) w
handle_event breaks events w = finishes panicked
handle_event (connects verdict) events w =
    let key = w.list.next_key in goes (submitting verdict key events) (clone key (track_stream w))

-- After `Pool::run`: the error of a pool that is busy drops the action with its handle.
unfoldable pub after_run : Verdict → ℕ → List Event → World → Turn
after_run takes key events w = goes (handling events) (let_go key w)
after_run busy key events w = goes (answering key events) (let_go key w)
after_run run_panics key events w = finishes panicked

-- The check of `stop` after the events of a round.
unfoldable pub after_events : Bool → World → Turn
after_events false w = goes waiting w
after_events true w =
    let (pending, list) = drain w.list in goes (closing pending []) (record w { list = list })

unfoldable pub after_wait : IoResult (List Event) → World → Turn
after_wait (ok events) w = goes (handling events) w
after_wait (err e) w = finishes (failed e w)
after_wait panic w = finishes panicked
after_wait running w = finishes unending

-- A stream that cannot be upgraded was dropped.
unfoldable pub close : Option ℕ → List ℕ → List ℕ → World → Turn
close none pending down w = goes (closing pending down) w
close (some key) pending down w = goes (closing pending (down ++ key ∷ [])) w

-- A turn of the loop, with what the poller gives and the flag `stop`.
unfoldable pub turn : IoResult (List Event) → Bool → Place → World → Turn
turn got stop waiting w = after_wait got w
turn got stop (handling []) w = after_events stop w
turn got stop (handling (event ∷ events)) w = handle_event event events w
turn got stop (submitting verdict key events) w = after_run verdict key events w
turn got stop (answering key events) w = goes (handling events) (let_go key w)
turn got stop (closing [] down) w = finishes (stopped down w)
turn got stop (closing (key ∷ pending) down) w = close (upgrade w.streams key) pending down w

-- `Server::accept_connections` from a place on, with what the threads of the connections do to the
-- streams between its turns.
pub data Accepts : Place → World → Outcome → Type 0 where
  moves :
      {p : Place} {w w' : World} {outcome : Outcome}
      → Step w w'
      → Accepts p w' outcome
      → Accepts p w outcome
  turns :
      {p : Place} {w : World} {outcome : Outcome} (got : IoResult (List Event)) (stop : Bool)
      (p' : Place) (w' : World)
      → turn got stop p w ≡ goes p' w'
      → Accepts p' w' outcome
      → Accepts p w outcome
  returns :
      {p : Place} {w : World} {outcome : Outcome} (got : IoResult (List Event)) (stop : Bool)
      → turn got stop p w ≡ finishes outcome
      → Accepts p w outcome

-- ===== src/Server/Accepting/Loop.antt =====
-- wruster/src/lib.rs: how the accepting loop ends.
use mathlib.Core.Path.{subst}
use wruster.Base.{
  ℕ, suc, ◌+◌, ◌^◌, ◌<◌, ◌≡◌, ◌≢◌, refl, sym, ap, ◌∙◌, Bool, true, false, Option, none, some, List,
  [], ◌∷◌, ◌++◌, arith, count, count-append,
}
use wruster.Http.Error.{ok, err, panic, running}
use wruster.Http.Io.{IoResult}
use wruster.Server.Accepting.{
  Event, Verdict, other_key, unwatched, unbuilt, breaks, refuses, connects, takes, busy, run_panics,
  Place, waiting, handling, submitting, answering, closing, Outcome, failed, stopped, panicked,
  unending, Turn, goes, finishes, clone, handle_event, after_run, after_events, after_wait, close,
  turn, Accepts, moves, turns, returns,
}
use wruster.Streams.Observed.Pending.{Reachable, tracked, moved, keys, Reachable-items, IsDistinct}
use wruster.Streams.Observed.{World, Step, track_stream, drain, handles, upgrade}
use wruster.Server.Accepting.Handles.{
  IsHeld, Step-IsHeld, Step-emptied, clone_at-Reachable, let_go-Reachable, count-keys, upgrade-held,
  upgrade-name,
}

-- While the streams are shut down, the list is empty, and each stream that a handle holds is left to
-- shut down or was shut down, once.
abbrev Covers : List ℕ → List ℕ → World → Type 0
Covers pending down w =
    (w.list.items ≡ [])
    × ((key : ℕ) → IsHeld w.streams key → count key pending + count key down ≡ 1)

abbrev Inv : ℕ → Place → World → Type 0
Inv n (closing pending down) w = Covers pending down w
Inv n waiting w = Reachable n w
Inv n (handling events) w = Reachable n w
Inv n (submitting verdict key events) w = Reachable n w
Inv n (answering key events) w = Reachable n w

Inv-moved : (n : ℕ) (p : Place) {w w' : World} → Step w w' → Inv n p w → Inv n p w'
Inv-moved n (closing pending down) step (empty, covers) =
    (Step-emptied step empty, λ key h. covers key (Step-IsHeld key step h))
Inv-moved n waiting step r = moved r step
Inv-moved n (handling events) step r = moved r step
Inv-moved n (submitting verdict key events) step r = moved r step
Inv-moved n (answering key events) step r = moved r step

drain-Covers :
    (n : ℕ) (w : World)
    → n < 2 ^ 64
    → Reachable n w
    → Covers (drain w.list).0 [] (record w { list = (drain w.list).1 })
unfolding drain count
drain-Covers n w few r =
    let (same, distinct) = Reachable-items n w few r in
    let apart : IsDistinct (keys w.streams) = subst IsDistinct same distinct in
    (
      refl,
      λ key (m, h).
          rw same (let one = count-keys key (suc m) w.streams h apart in omega (arith, one)),
    )

-- After a stop the list is empty, and each stream that a handle still holds was shut down, once; after
-- an error the list is that of all streams.
abbrev pub IsOrderly : Outcome → Type 0
IsOrderly (stopped down w) =
    (w.list.items ≡ []) × ((key : ℕ) → IsHeld w.streams key → count key down ≡ 1)
IsOrderly (failed e w) = w.list.items ≡ keys w.streams
IsOrderly panicked = Unit
IsOrderly unending = Unit

-- The next place of a turn keeps the invariant, and the outcome of one is as it should be.
abbrev IsSound : ℕ → Turn → Type 0
IsSound n (goes p w) = Inv n p w
IsSound n (finishes outcome) = IsOrderly outcome

after_run-IsSound :
    (n key : ℕ) (verdict : Verdict) (events : List Event) (w : World)
    → Reachable n w
    → IsSound n (after_run verdict key events w)
unfolding after_run
after_run-IsSound n key takes events w r = let_go-Reachable n key w r
after_run-IsSound n key busy events w r = let_go-Reachable n key w r
after_run-IsSound n key run_panics events w r = tt

-- A stream that is held counts as before when one that is not leaves the front, or one moves.
count-skipped :
    (key j c : ℕ) (pending : List ℕ)
    → key ≢ j
    → count j (key ∷ pending) + c ≡ 1
    → count j pending + c ≡ 1
unfolding count
count-skipped key j c pending ne h = ground (arith, h)

count-closed :
    (key j : ℕ) (pending down : List ℕ)
    → count j (key ∷ pending) + count j down ≡ 1
    → count j pending + count j (down ++ key ∷ []) ≡ 1
unfolding count
count-closed key j pending down h = ground (arith, count-append j key down)

close-IsSound :
    (n key : ℕ) (o : Option ℕ) (pending down : List ℕ) (w : World)
    → upgrade w.streams key ≡ o
    → Covers (key ∷ pending) down w
    → IsSound n (close o pending down w)
unfolding close
close-IsSound n key none pending down w e (empty, covers) = (
  empty,
  λ j held.
      let gone : key ≢ j = λ same.
        let found = upgrade-held w.streams j held in
        let missing : upgrade w.streams j ≡ none = ap (upgrade w.streams) (sym same) ∙ e in cc in
      count-skipped key j (count j down) pending gone (covers j held),
)
close-IsSound n key (some k) pending down w e (empty, covers) = (
  empty,
  λ j held.
      let name = upgrade-name w.streams key e in
      subst (λ i. count j pending + count j (down ++ i ∷ []) ≡ 1) name
        (count-closed key j pending down (covers j held)),
)

-- The streams that a turn tracks.
abbrev tracked_at : Place → ℕ
tracked_at (handling (connects verdict ∷ events)) = 1
tracked_at _ = 0

handle_event-IsSound :
    (n : ℕ) (event : Event) (events : List Event) (w : World)
    → n + tracked_at (handling (event ∷ events)) < 2 ^ 64
    → Reachable n w
    → IsSound (n + tracked_at (handling (event ∷ events))) (handle_event event events w)
unfolding handle_event clone
handle_event-IsSound n other_key events w few r = subst (λ m. Reachable m w) (omega arith) r
handle_event-IsSound n (refuses e) events w few r =
    let (same, _) = Reachable-items n w (omega (arith, few)) r in same
handle_event-IsSound n unwatched events w few r = tt
handle_event-IsSound n unbuilt events w few r = subst (λ m. Reachable m w) (omega arith) r
handle_event-IsSound n breaks events w few r = tt
handle_event-IsSound n (connects verdict) events w few r =
    let w' = track_stream w in
    clone_at-Reachable (n + 1) w.list.next_key w' (handles w'.streams w.list.next_key) refl
      (subst (λ m. Reachable m w') (omega arith) (tracked r))

turn-IsSound :
    (n : ℕ) (got : IoResult (List Event)) (stop : Bool) (p : Place) (w : World)
    → n + tracked_at p < 2 ^ 64
    → Inv n p w
    → IsSound (n + tracked_at p) (turn got stop p w)
unfolding turn after_wait after_events count
turn-IsSound n (ok events) stop waiting w few r = subst (λ m. Reachable m w) (omega arith) r
turn-IsSound n (err e) stop waiting w few r =
    let (same, _) = Reachable-items n w (omega (arith, few)) r in same
turn-IsSound n panic stop waiting w few r = tt
turn-IsSound n running stop waiting w few r = tt
turn-IsSound n got false (handling []) w few r = subst (λ m. Reachable m w) (omega arith) r
turn-IsSound n got true (handling []) w few r = drain-Covers n w (omega (arith, few)) r
turn-IsSound n got stop (handling (event ∷ events)) w few r =
    handle_event-IsSound n event events w few r
turn-IsSound n got stop (submitting verdict key events) w few r =
    after_run-IsSound (n + 0) key verdict events w (subst (λ m. Reachable m w) (omega arith) r)
turn-IsSound n got stop (answering key events) w few r =
    let_go-Reachable (n + 0) key w (subst (λ m. Reachable m w) (omega arith) r)
turn-IsSound n got stop (closing [] down) w few (empty, covers) =
    (empty, λ key held. let one = covers key held in omega (arith, one))
turn-IsSound n got stop (closing (key ∷ pending) down) w few v =
    close-IsSound (n + 0) key (upgrade w.streams key) pending down w refl v

-- The streams that are tracked from a place on.
abbrev pub all_tracked : {p : Place} {w : World} {outcome : Outcome} → Accepts p w outcome → ℕ
all_tracked (moves step later) = all_tracked later
all_tracked {p = p} (turns got stop p' w' e later) = tracked_at p + all_tracked later
all_tracked {p = p} (returns got stop e) = tracked_at p

accepts-IsOrderly_from :
    (n : ℕ) (p : Place) (w : World) (outcome : Outcome) (run : Accepts p w outcome)
    → n + all_tracked run < 2 ^ 64
    → Inv n p w
    → IsOrderly outcome
accepts-IsOrderly_from n p w outcome (moves {w' = w'} step later) few v =
    accepts-IsOrderly_from n p w' outcome later few (Inv-moved n p step v)
accepts-IsOrderly_from n p w outcome (turns got stop p' w' e later) few v =
    accepts-IsOrderly_from (n + tracked_at p) p' w' outcome later (omega (arith, few))
      (subst (IsSound (n + tracked_at p)) e (turn-IsSound n got stop p w (omega (arith, few)) v))
accepts-IsOrderly_from n p w outcome (returns got stop e) few v =
    subst (IsSound (n + tracked_at p)) e (turn-IsSound n got stop p w few v)

-- However the turns of the accepting loop and the threads of its connections interleave, as long as
-- fewer than 2 ^ 64 streams are tracked: if the loop ends because the server is to stop, the list is
-- empty and every stream that a handle still holds was shut down, once, whether its request was being
-- served or not; and if it ends with an error, the list is that of all streams.
pub accepts-IsOrderly :
    (n : ℕ) (w : World) (outcome : Outcome) (run : Accepts waiting w outcome)
    → n + all_tracked run < 2 ^ 64
    → Reachable n w
    → IsOrderly outcome
accepts-IsOrderly n w outcome run few r = accepts-IsOrderly_from n waiting w outcome run few r

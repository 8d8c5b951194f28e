-- ===== src/Streams/Cancellable/Writes.antt =====
-- wruster/src/streams/cancellable_stream.rs: what a write leaves.
use mathlib.Core.List.{append_assoc, append-nil}
use wruster.Base.{
  ℕ, zero, suc, ◌+◌, ◌-◌, ◌≡◌, ◌≤◌, ◌∙◌, sym, ap, not, ◌||◌, Option, List, [], ◌∷◌, ◌++◌, Bytes,
  ◌==◌, ltb, length, take, drop, arith, Bool-cases, inl, inr, refl,
}
use wruster.Http.Error.{
  ErrorKind, would_block, IoError, ok, err, panic, running, Result-cases, was_ok, was_err,
  was_panic, was_running,
}
use wruster.Http.Io.{IoResult}
use wruster.Http.Io.Laws.{take-append-drop}
use wruster.Streams.Cancellable.{
  Device, Event, CancellableStream, write_failed, write_refused, write_events, write_woken,
  write_ready, write_round, write_rounds, write_int,
}

pub length-drop : (n : ℕ) (s : Bytes) → length (drop n s) ≡ length s - n
length-drop zero s = omega arith
length-drop (suc n) [] = omega arith
length-drop (suc n) (c ∷ s) = omega (arith, length-drop n s)

drop-add : (n m : ℕ) (s : Bytes) → drop (n + m) s ≡ drop m (drop n s)
drop-add zero m s = let e : 0 + m ≡ m = omega arith in rw e
drop-add (suc n) zero [] = let e : suc n + 0 ≡ suc n = omega arith in rw e
drop-add (suc n) (suc m) [] = let e : suc n + suc m ≡ suc (n + suc m) = omega arith in rw e
drop-add (suc n) m (c ∷ s) = let e : suc n + m ≡ suc (n + m) = omega arith in rw e (drop-add n m s)

drop_all : (n : ℕ) (s : Bytes) → length s ≤ n → drop n s ≡ []
drop_all zero [] h = refl
drop_all zero (c ∷ s) h = absurd (omega (arith, h))
drop_all (suc n) [] h = refl
drop_all (suc n) (c ∷ s) h = drop_all n s (omega (arith, h))

module _ (D : Device) where
  open D use {State, written}

  -- The bytes that a round counts are the ones that it wrote.
  abbrev pub Adds : Bytes → State → IoResult ℕ × State → Type 0
  Adds rest s (ok n, after) = (n ≤ length rest) × (written after ≡ written s ++ take n rest)
  Adds rest s _ = Unit {0}

  none-Adds :
      (rest : Bytes) (s after : State) → written after ≡ written s → Adds rest s (ok 0, after)
  none-Adds rest s after same = (omega arith, same ∙ sym (append-nil (written s)))

  write_failed-Adds :
      (rest : Bytes) (s : State) (e : IoError) (set : IoResult (Unit {0}) × State)
      → Adds rest s (write_failed D e set)
  unfolding write_failed
  write_failed-Adds rest s e (ok _, after) = tt
  write_failed-Adds rest s e (err e', after) = tt
  write_failed-Adds rest s e (panic, after) = tt
  write_failed-Adds rest s e (running, after) = tt

  write_refused-Adds :
      (rest : Bytes) (s after : State) (kind : ErrorKind) (e : IoError)
      → written after ≡ written s
      → Adds rest s (write_refused D kind e after)
  unfolding write_refused
  write_refused-Adds rest s after would_block e same = none-Adds rest s after same
  write_refused-Adds rest s after _ e same = write_failed-Adds rest s e (D.set_blocking after)

  write_events-Adds :
      (rest : Bytes) (events : List Event) (s : State) → Adds rest s (write_events D rest events s)
  unfolding write_events
  write_events-Adds rest [] s = none-Adds rest s s refl
  write_events-Adds rest (evt ∷ events) s =
      let after = (D.write_buf rest s).1 in
      elim (Bool-cases (not (evt.key == 1) || not evt.writable)) [
        | inl other ↦ rw other (write_events-Adds rest events s)
        | inr ours ↦ rw ours (elim (Result-cases (D.write_buf rest s).0) [
          | was_ok n wrote ↦ rw wrote (D.write_buf-written rest s n wrote)
          | was_err e failed ↦
              rw failed
                (write_refused-Adds rest s after e.kind e (D.write_buf-refused rest s e failed))
          | was_panic failed ↦ rw failed tt
          | was_running failed ↦ rw failed tt
        ])
      ]

  write_woken-Adds :
      (rest : Bytes) (woken : IoResult (List Event)) (s : State)
      → Adds rest s (write_woken D rest woken s)
  unfolding write_woken
  write_woken-Adds rest (ok []) s = tt
  write_woken-Adds rest (ok (evt ∷ events)) s = write_events-Adds rest (evt ∷ events) s
  write_woken-Adds rest (err e) s = tt
  write_woken-Adds rest panic s = tt
  write_woken-Adds rest running s = tt

  -- What happened before the round wrote nothing.
  Adds-before :
      (rest : Bytes) (s before : State) (m : IoResult ℕ × State)
      → written before ≡ written s
      → Adds rest before m
      → Adds rest s m
  Adds-before rest s before (ok n, after) same h = (h.0, rw h.1 (rw same))
  Adds-before rest s before (err e, after) same h = tt
  Adds-before rest s before (panic, after) same h = tt
  Adds-before rest s before (running, after) same h = tt

  write_ready-Adds :
      (rest : Bytes) (timeout : Option ℕ) (modified : IoResult (Unit {0})) (s : State)
      → Adds rest s (write_ready D rest timeout modified s)
  unfolding write_ready
  write_ready-Adds rest timeout (ok _) s =
      let (woken, after) = D.wait timeout s in
      Adds-before rest s after _ (D.wait-written timeout s) (write_woken-Adds rest woken after)
  write_ready-Adds rest timeout (err e) s = tt
  write_ready-Adds rest timeout panic s = tt
  write_ready-Adds rest timeout running s = tt

  pub write_round-Adds :
      (rest : Bytes) (timeout : Option ℕ) (s : State) → Adds rest s (write_round D rest timeout s)
  unfolding write_round
  write_round-Adds rest timeout s =
      let (modified, after) = D.modify_writable s in
      Adds-before rest s after _ (D.modify_writable-written s)
        (write_ready-Adds rest timeout modified after)

  -- One round more is written.
  joined :
      (buf : Bytes) (w n : ℕ) (s after : State) (last : Bytes)
      → written after ≡ written s ++ take n (drop w buf)
      → last ≡ written after ++ drop (w + n) buf
      → last ≡ written s ++ drop w buf
  joined buf w n s after last wrote ends =
      ends
      ∙ rw (wrote, drop-add w n buf)
          (append_assoc (written s) (take n (drop w buf)) (drop n (drop w buf))
            ∙ ap (◌++◌ (written s)) (take-append-drop n (drop w buf)))

  -- The whole buffer is counted, and what was left of it is written.
  abbrev Whole : Bytes → ℕ → State → IoResult ℕ × State → Type 0
  Whole buf w s (ok n, after) = (n ≡ length buf) × (written after ≡ written s ++ drop w buf)
  Whole buf w s _ = Unit {0}

  Whole-after :
      (buf : Bytes) (w n : ℕ) (s after : State) (m : IoResult ℕ × State)
      → written after ≡ written s ++ take n (drop w buf)
      → Whole buf (w + n) after m
      → Whole buf w s m
  Whole-after buf w n s after (ok k, last) wrote h =
      (h.0, joined buf w n s after (written last) wrote h.1)
  Whole-after buf w n s after (err e, last) wrote h = tt
  Whole-after buf w n s after (panic, last) wrote h = tt
  Whole-after buf w n s after (running, last) wrote h = tt

  write_rounds-Whole :
      (fuel : ℕ) (buf : Bytes) (w : ℕ) (timeout : Option ℕ) (s : State)
      → w ≤ length buf
      → Whole buf w s (write_rounds D fuel buf w timeout s)
  unfolding write_rounds
  write_rounds-Whole zero buf w timeout s le = tt
  write_rounds-Whole (suc fuel) buf w timeout s le =
      let rest = drop w buf in
      let added = write_round-Adds rest timeout s in
      let after = (write_round D rest timeout s).1 in
      elim (Bool-cases (ltb w (length buf))) [
        | inr over ↦
            let end : length buf ≤ w = ground (arith, over) in
            rw (over, drop_all w buf end) (omega (arith, end, le), sym (append-nil (written s)))
        | inl more ↦ rw more (elim (Result-cases (write_round D rest timeout s).0) [
          | was_ok n wrote ↦
              let (few, adds) = rw wrote at added in
              rw wrote (
                Whole-after buf w n s after _ adds (
                  write_rounds-Whole fuel buf (w + n) timeout after
                    (omega (arith, few, length-drop w buf, le))))
          | was_err e failed ↦ rw failed tt
          | was_panic failed ↦ rw failed tt
          | was_running failed ↦ rw failed tt
        ])
      ]

  -- A write that returns a number has written the whole buffer, behind what was written before, and
  -- the number is its length.
  pub write_int-whole :
      (fuel : ℕ) (buf : Bytes) (t : CancellableStream D) (n : ℕ)
      → (write_int D fuel buf t).0 ≡ ok n
      → (n ≡ length buf) × (written (write_int D fuel buf t).1.device ≡ written t.device ++ buf)
  unfolding write_int
  write_int-whole fuel buf t n done =
      rw done at (write_rounds-Whole fuel buf 0 t.write_timeout t.device (omega arith))

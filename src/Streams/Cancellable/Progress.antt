-- ===== src/Streams/Cancellable/Progress.antt =====
-- wruster/src/streams/cancellable_stream.rs: a write on a stream that takes bytes comes to an end.
use wruster.Base.{
  ℕ, zero, suc, ◌+◌, ◌≡◌, ◌≢◌, ◌≤◌, ◌<◌, true, Option, [], ◌∷◌, ◌++◌, Bytes, ltb, length, drop,
  arith, Bool-cases, inl, inr,
}
use wruster.Http.Error.{ok}
use wruster.Streams.Cancellable.Writes.{length-drop, write_round-Adds, write_int-whole}
use wruster.Streams.Cancellable.{
  Device, CancellableStream, write_events, write_woken, write_ready, write_round, write_rounds,
  write_int,
}

drop-ne_nil : (n : ℕ) (s : Bytes) → n < length s → drop n s ≢ []
drop-ne_nil n s h e =
    let nothing : length (drop n s) ≡ 0 = rw e in omega (arith, nothing, length-drop n s, h)

module _ (D : Device) where
  open D use {State, written}

  -- The stream becomes writable within the time-out whenever it is waited for, and takes a byte then.
  pub record IsWilling : Type 0 where
    pub modified : (s : State) → (D.modify_writable s).0 ≡ ok tt
    pub woken :
        (d : Option ℕ) (s : State) → (D.wait d s).0 ≡ ok (record { key = 1; writable = true } ∷ [])
    pub takes :
        (buf : Bytes) (s : State) → buf ≢ [] → (n : ℕ) × ((D.write_buf buf s).0 ≡ ok n) × (0 < n)

  write_round-willing :
      (rest : Bytes) (timeout : Option ℕ) (s : State)
      → IsWilling
      → rest ≢ []
      → (n : ℕ) × ((write_round D rest timeout s).0 ≡ ok n) × (0 < n)
  unfolding write_round write_ready write_woken write_events
  write_round-willing rest timeout s willing some_left =
      let s1 = (D.modify_writable s).1 in
      let (n, took, positive) = willing.takes rest (D.wait timeout s1).1 some_left in
      (n, rw (willing.modified s, willing.woken timeout s1, took), positive)

  write_rounds-willing :
      (fuel : ℕ) (buf : Bytes) (w : ℕ) (timeout : Option ℕ) (s : State)
      → IsWilling
      → w ≤ length buf
      → length buf < w + fuel
      → (write_rounds D fuel buf w timeout s).0 ≡ ok (length buf)
  unfolding write_rounds
  write_rounds-willing zero buf w timeout s willing le enough = absurd (omega (arith, le, enough))
  write_rounds-willing (suc fuel) buf w timeout s willing le enough =
      let rest = drop w buf in
      let after = (write_round D rest timeout s).1 in
      elim (Bool-cases (ltb w (length buf))) [
        | inr over ↦ let end : w ≡ length buf = ground (arith, over, le) in rw (over, end)
        | inl more ↦
            let left : rest ≢ [] = drop-ne_nil w buf (ground (arith, more)) in
            let (n, wrote, positive) = write_round-willing rest timeout s willing left in
            let (few, adds) = rw wrote at (write_round-Adds D rest timeout s) in
            rw (more, wrote)
              (write_rounds-willing fuel buf (w + n) timeout after willing
                (omega (arith, few, length-drop w buf, le)) (omega (arith, enough, positive)))
      ]

  -- On a willing stream a write of any buffer ends, within one round for each byte and one more: it
  -- returns the length of the buffer, and has written all of it.
  pub write_int-willing :
      (buf : Bytes) (t : CancellableStream D)
      → IsWilling
      → ((write_int D (suc (length buf)) buf t).0 ≡ ok (length buf))
        × (written (write_int D (suc (length buf)) buf t).1.device ≡ written t.device ++ buf)
  write_int-willing buf t willing =
      let done : (write_int D (suc (length buf)) buf t).0 ≡ ok (length buf) =
        unfold write_int in
        write_rounds-willing (suc (length buf)) buf 0 t.write_timeout t.device willing (omega arith)
          (omega arith) in
      (done, (write_int-whole D (suc (length buf)) buf t (length buf) done).1)

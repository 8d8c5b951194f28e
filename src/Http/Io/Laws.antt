-- ===== src/Http/Io/Laws.antt =====
-- Laws of the reader and the writer.
use mathlib.Core.List.{append_assoc, append-nil}
use wruster.Base.{
  ℕ, zero, suc, ◌≡◌, ◌≢◌, refl, ap, ◌∙◌, true, Option, List, [], ◌∷◌, ◌++◌, Bytes, All, arith, take,
  drop,
}
use wruster.Http.Error.{IoError, ok}
use wruster.Http.Io.{until, read_until, Call, takes, fails, Output, write_all, write_all_calls}

pub until-append :
    (delim : ℕ) (s rest : Bytes)
    → All (λ c. c ≢ delim) s
    → until delim (s ++ (delim ∷ rest))
      ≡ record { bytes = s ++ delim ∷ []; rest = rest; found = true }
unfolding until
until-append delim [] rest h = ground arith
until-append delim (c ∷ s) rest h = ground (arith, until-append delim s rest h.1)

-- A delimiter that is in the input ends the read, whatever comes after it.
pub read_until-append :
    (delim : ℕ) (s rest : Bytes) (ending : Option IoError)
    → All (λ c. c ≢ delim) s
    → read_until delim (record { unread = s ++ (delim ∷ rest); ending = ending })
      ≡ ok (s ++ delim ∷ [], record { unread = rest; ending = ending })
unfolding read_until
read_until-append delim s rest ending h = rw (until-append delim s rest h)

pub take-append-drop : (n : ℕ) (s : Bytes) → take n s ++ drop n s ≡ s
take-append-drop zero s = refl
take-append-drop (suc n) [] = refl
take-append-drop (suc n) (c ∷ s) = ap (◌∷◌ c) (take-append-drop n s)

write_all_calls-written :
    (calls : List Call) (written : Bytes) (to' : Output) (buf : Bytes)
    → write_all_calls written calls buf ≡ ok to'
    → to'.written ≡ written ++ buf
unfolding write_all_calls
write_all_calls-written calls written to' [] e = ground (arith, append-nil written)
write_all_calls-written [] written to' (c ∷ buf) e = ground arith
write_all_calls-written (takes zero ∷ calls) written to' (c ∷ buf) e = cc
write_all_calls-written (takes (suc n) ∷ calls) written to' (c ∷ buf) e =
    write_all_calls-written calls (written ++ take (suc n) (c ∷ buf)) to' (drop (suc n) (c ∷ buf)) e
    ∙ append_assoc written _ _
    ∙ ap (◌++◌ written) (take-append-drop (suc n) (c ∷ buf))
write_all_calls-written (fails _ ∷ calls) written to' (c ∷ buf) e = cc

-- A `write_all` that succeeds has written the whole buffer, behind what was there.
pub write_all-written :
    (to to' : Output) (buf : Bytes) → write_all to buf ≡ ok to' → to'.written ≡ to.written ++ buf
unfolding write_all
write_all-written to to' buf e = write_all_calls-written to.calls to.written to' buf e

-- A writer with no call listed takes everything.
pub write_all-reliable :
    (written buf : Bytes)
    → write_all (record { written = written; calls = [] }) buf
      ≡ ok (record { written = written ++ buf; calls = [] })
unfolding write_all write_all_calls
write_all-reliable written [] = rw append-nil
write_all-reliable written (c ∷ buf) = refl

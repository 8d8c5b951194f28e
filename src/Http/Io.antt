-- ===== src/Http/Io.antt =====
-- What the messages use of `std::io`: a buffered reader and a writer.
-- A reader holds the bytes that will still arrive and how it ends after them: with the end of the
-- stream, or with an error. A writer holds the bytes that it took and what its next calls will do; with
-- no call listed it takes all that it is given. The errors are those that std reports: it reads and
-- writes again after one of the kind Interrupted.
pub mod Laws
pub mod Shrinks
use wruster.Base.{
  ℕ, zero, suc, Bool, true, false, Option, none, some, List, [], ◌∷◌, ◌++◌, Bytes, ◌==◌,
  if◌then◌else◌, take, drop, codes,
}
use wruster.Http.Error.{IoError, write_zero, Result, ok, err}

pub record Input : Type 0 where
  pub unread : Bytes
  pub ending : Option IoError

abbrev pub IoResult {ℓ} : Type ℓ → Type ℓ
IoResult A = Result IoError A

pub record Chunk : Type 0 where
  pub bytes : Bytes
  pub rest : Bytes
  pub found : Bool

unfoldable pub until : ℕ → Bytes → Chunk
until delim [] = record { bytes = []; rest = []; found = false }
until delim (c ∷ cs) =
    let later = until delim cs in
    if c == delim
    then record { bytes = c ∷ []; rest = cs; found = true }
    else record later { bytes = c ∷ later.bytes }

-- `BufRead::read_until`: the bytes up to the delimiter, which they include, or up to the end.
unfoldable pub read_until : ℕ → Input → IoResult (Bytes × Input)
unfolding until
read_until delim from =
    let chunk = until delim from.unread in
    let read : Bytes × Input = (chunk.bytes, record from { unread = chunk.rest }) in
    if chunk.found then ok read else elim from.ending [ none ↦ ok read | some e ↦ err e ]

pub data Call : Type 0 where
  takes : ℕ → Call
  fails : IoError → Call

pub record Output : Type 0 where
  pub written : Bytes
  pub calls : List Call

-- `Write::write`: one call, which may take fewer bytes than it is given.
unfoldable pub write_call : Bytes → List Call → Bytes → IoResult Output
write_call written [] buf = ok (record { written = written ++ buf; calls = [] })
write_call written (takes n ∷ calls) buf =
    ok (record { written = written ++ take n buf; calls = calls })
write_call written (fails e ∷ calls) buf = err e

unfoldable pub write : Output → Bytes → IoResult Output
unfolding write_call
write to buf = write_call to.written to.calls buf

abbrev pub wrote_nothing : IoError
wrote_nothing = record { kind = write_zero; message = codes "failed to write whole buffer" }

-- `Write::write_all`: calls until every byte is taken.
unfoldable pub write_all_calls : Bytes → List Call → Bytes → IoResult Output
write_all_calls written calls [] = ok (record { written = written; calls = calls })
write_all_calls written [] (c ∷ cs) = ok (record { written = written ++ (c ∷ cs); calls = [] })
write_all_calls written (takes zero ∷ calls) (c ∷ cs) = err wrote_nothing
write_all_calls written (takes (suc n) ∷ calls) (c ∷ cs) =
    write_all_calls (written ++ take (suc n) (c ∷ cs)) calls (drop (suc n) (c ∷ cs))
write_all_calls written (fails e ∷ calls) (c ∷ cs) = err e

unfoldable pub write_all : Output → Bytes → IoResult Output
unfolding write_all_calls
write_all to buf = write_all_calls to.written to.calls buf

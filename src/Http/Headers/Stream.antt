-- ===== src/Http/Headers/Stream.antt =====
-- Headers and their bytes: what is written is read back.
use mathlib.Core.List.{append_assoc, append-nil}
use native.Mathlib.Nat.{add_assoc}
use wruster.Base.{
  ℕ, suc, ◌+◌, ◌≡◌, ◌≢◌, refl, ap, ◌∙◌, Option, none, List, [], ◌∷◌, ◌++◌, Bytes, All, arith,
  equal_refl, length,
}
use wruster.Http.Error.{IoError, ok}
use wruster.Http.Header
use wruster.Http.Header.Line.{
  line_of, IsWritable, read_from-line_of, write-reliable, read_line-append,
}
use wruster.Http.Header.Parse.{crlf, parse_header_line_empty}
use wruster.Http.Header.{Header, read_line, ends_with_crlf}
use wruster.Http.Headers.{
  Headers, new, push_value, add, get, read_headers, read_from, write_values, write_entries, write,
}
use wruster.Http.Io.Laws.{write_all-reliable}
use wruster.Http.Io.{Input}

-- The lines of the headers, and the empty line behind them.
abbrev pub value_lines : Bytes → List Bytes → Bytes
value_lines name [] = []
value_lines name (v ∷ vs) = line_of (record { name = name; value = v }) ++ value_lines name vs

abbrev pub entry_lines : Headers → Bytes
entry_lines [] = []
entry_lines ((name, vs) ∷ hs) = value_lines name vs ++ entry_lines hs

abbrev pub lines_of : Headers → Bytes
lines_of hs = entry_lines hs ++ crlf

abbrev pub count_lines : Headers → ℕ
count_lines [] = 1
count_lines ((name, vs) ∷ hs) = length vs + count_lines hs

-- Every name has a value, no name stands twice or in `before`, and every line can be written.
abbrev pub IsWritableAfter : Headers → Headers → Type 0
IsWritableAfter before [] = Unit {0}
IsWritableAfter before ((name, vs) ∷ hs) =
    (get before name ≡ none)
    × (vs ≢ [])
    × All (λ v. IsWritable (record { name = name; value = v })) vs
    × IsWritableAfter (before ++ (name, vs) ∷ []) hs

push_value-new :
    (hs : Headers) (n v : Bytes) → get hs n ≡ none → push_value hs n v ≡ hs ++ (n, v ∷ []) ∷ []
unfolding get push_value
push_value-new [] n v h = refl
push_value-new ((k, vs) ∷ hs) n v h = ground (arith, push_value-new hs n v)

push_value-last :
    (hs : Headers) (n : Bytes) (vs : List Bytes) (v : Bytes)
    → get hs n ≡ none
    → push_value (hs ++ (n, vs) ∷ []) n v ≡ hs ++ (n, vs ++ v ∷ []) ∷ []
unfolding get push_value
push_value-last [] n vs v h = rw (equal_refl n)
push_value-last ((k, ws) ∷ hs) n vs v h = ground (arith, push_value-last hs n vs v)

write_values-reliable :
    (name : Bytes) (vs : List Bytes) (written : Bytes)
    → write_values name vs (record { written = written; calls = [] })
      ≡ ok (record { written = written ++ value_lines name vs; calls = [] })
unfolding write_values
write_values-reliable name [] written = rw append-nil
write_values-reliable name (v ∷ vs) written =
    rw
      (
        write-reliable (record { name = name; value = v }) written,
        write_values-reliable name vs (written ++ line_of (record { name = name; value = v })),
      )
      (simp append_assoc)

write_entries-reliable :
    (hs : Headers) (written : Bytes)
    → write_entries hs (record { written = written; calls = [] })
      ≡ ok (record { written = written ++ entry_lines hs; calls = [] })
unfolding write_entries
write_entries-reliable [] written = rw append-nil
write_entries-reliable ((name, vs) ∷ hs) written =
    rw
      (
        write_values-reliable name vs written,
        write_entries-reliable hs (written ++ value_lines name vs),
      )
      (simp append_assoc)

-- A writer that takes everything is given the lines of the headers.
pub write-lines_of :
    (hs : Headers) (written : Bytes)
    → write hs (record { written = written; calls = [] })
      ≡ ok (record { written = written ++ lines_of hs; calls = [] })
unfolding write
write-lines_of hs written =
    rw (write_entries-reliable hs written, write_all-reliable (written ++ entry_lines hs) crlf)
      (simp append_assoc)

abbrev input : Bytes → Option IoError → Input
input bytes ending = record { unread = bytes; ending = ending }

module _ (lines : ℕ) (ending : Option IoError) where
  read_header :
      (fuel : ℕ) (hs : Headers) (h : Header) (rest : Bytes)
      → IsWritable h
      → read_headers (suc lines) (suc fuel) hs (input (line_of h ++ rest) ending)
        ≡ read_headers (suc lines) fuel (add hs h) (input rest ending)
  unfolding read_headers
  read_header fuel hs h rest v = rw (read_from-line_of lines h rest ending v)

  read_end :
      (fuel : ℕ) (hs : Headers) (rest : Bytes)
      → read_headers (suc lines) (suc fuel) hs (input (crlf ++ rest) ending)
        ≡ ok (hs, input rest ending)
  unfolding read_headers Header.read_from
  read_end fuel hs rest = rw (read_line-append lines [] rest ending tt, parse_header_line_empty)

  -- The values of one name, with some of them already read.
  read_values :
      (fuel : ℕ) (hs : Headers) (name : Bytes) (read vs : List Bytes) (rest : Bytes)
      → get hs name ≡ none
      → All (λ v. IsWritable (record { name = name; value = v })) vs
      → read_headers
          (suc lines)
          (length vs + fuel)
          (hs ++ (name, read) ∷ [])
          (input (value_lines name vs ++ rest) ending)
        ≡ read_headers (suc lines) fuel (hs ++ (name, read ++ vs) ∷ []) (input rest ending)
  unfolding add
  read_values fuel hs name read [] rest fresh h =
      let none_left : 0 + fuel ≡ fuel = omega arith in rw (none_left, append-nil read)
  read_values fuel hs name read (v ∷ vs) rest fresh h =
      let header : Header = record { name = name; value = v } in
      let rounds : suc (length vs) + fuel ≡ suc (length vs + fuel) = omega arith in
      let line = append_assoc (line_of header) (value_lines name vs) rest in
      rw (rounds, line)
        (read_header (length vs + fuel) (hs ++ (name, read) ∷ []) header
            (value_lines name vs ++ rest) h.0
          ∙ rw (push_value-last hs name read v fresh) (
              read_values fuel hs name (read ++ v ∷ []) vs rest fresh h.1
              ∙ rw (append_assoc read (v ∷ []) vs)))

  -- All the values of a new name.
  read_entry :
      (fuel : ℕ) (hs : Headers) (name : Bytes) (vs : List Bytes) (rest : Bytes)
      → get hs name ≡ none
      → vs ≢ []
      → All (λ v. IsWritable (record { name = name; value = v })) vs
      → read_headers (suc lines) (length vs + fuel) hs (input (value_lines name vs ++ rest) ending)
        ≡ read_headers (suc lines) fuel (hs ++ (name, vs) ∷ []) (input rest ending)
  unfolding add
  read_entry fuel hs name [] rest fresh ne h = absurd (ne refl)
  read_entry fuel hs name (v ∷ vs) rest fresh ne h =
      let header : Header = record { name = name; value = v } in
      let rounds : suc (length vs) + fuel ≡ suc (length vs + fuel) = omega arith in
      let line = append_assoc (line_of header) (value_lines name vs) rest in
      rw (rounds, line)
        (read_header (length vs + fuel) hs header (value_lines name vs ++ rest) h.0
          ∙ rw (push_value-new hs name v fresh)
              (read_values fuel hs name (v ∷ []) vs rest fresh h.1))

  read_entries :
      (fuel : ℕ) (before hs : Headers) (rest : Bytes)
      → IsWritableAfter before hs
      → read_headers
          (suc lines)
          (count_lines hs + fuel)
          before
          (input (entry_lines hs ++ (crlf ++ rest)) ending)
        ≡ ok (before ++ hs, input rest ending)
  read_entries fuel before [] rest v =
      let rounds : 1 + fuel ≡ suc fuel = omega arith in
      rw (rounds, append-nil before) (read_end fuel before rest)
  read_entries fuel before ((name, vs) ∷ hs) rest v =
      let rounds = add_assoc (length vs) (count_lines hs) fuel in
      let line = append_assoc (value_lines name vs) (entry_lines hs) (crlf ++ rest) in
      rw (rounds, line)
        (read_entry (count_lines hs + fuel) before name vs (entry_lines hs ++ (crlf ++ rest)) v.0
            v.1 v.2
          ∙ read_entries fuel (before ++ (name, vs) ∷ []) hs rest v.3
          ∙ ap (λ t. ok (t, input rest ending)) (append_assoc before ((name, vs) ∷ []) hs))

  -- Headers that can be written are read back from their lines, in their order, with fuel for one
  -- round more than there are lines; what follows the empty line stays in the input.
  pub read_from-lines_of :
      (fuel : ℕ) (hs : Headers) (rest : Bytes)
      → IsWritableAfter [] hs
      → read_from (suc lines) (count_lines hs + fuel) (input (lines_of hs ++ rest) ending)
        ≡ ok (hs, input rest ending)
  unfolding read_from new
  read_from-lines_of fuel hs rest v =
      rw (append_assoc (entry_lines hs) crlf rest) (read_entries fuel [] hs rest v)

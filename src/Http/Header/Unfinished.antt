-- ===== src/Http/Header/Unfinished.antt =====
-- A stream that ends inside a line of the headers.
use mathlib.Core.List.{append-nil}
use wruster.Base.{ℕ, zero, suc, ◌≡◌, ◌≢◌, refl, false, Option, none, [], ◌∷◌, Bytes, All, arith}
use wruster.Http.Error.{IoError, ok, running}
use wruster.Http.Header.{read_line, ends_with_crlf, read_from}
use wruster.Http.Io.{Input, until, read_until}

abbrev input : Bytes → Option IoError → Input
input bytes ending = record { unread = bytes; ending = ending }

until-absent :
    (delim : ℕ) (s : Bytes)
    → All (λ c. c ≢ delim) s
    → until delim s ≡ record { bytes = s; rest = []; found = false }
unfolding until
until-absent delim [] h = refl
until-absent delim (c ∷ s) h = ground (arith, until-absent delim s h.1)

read_until-absent :
    (delim : ℕ) (s : Bytes)
    → All (λ c. c ≢ delim) s
    → read_until delim (input s none) ≡ ok (s, input [] none)
unfolding read_until
read_until-absent delim s h = rw (until-absent delim s h)

read_line_dry :
    (fuel : ℕ) (line : Bytes)
    → ends_with_crlf line ≡ false
    → read_line fuel line (input [] none) ≡ running
unfolding read_line
read_line_dry zero line h = refl
read_line_dry (suc fuel) line h =
    rw (read_until-absent b'\n' [] tt, append-nil line, h) (read_line_dry fuel line h)

ends_with_crlf-no_newline : (s : Bytes) → All (λ c. c ≢ b'\n') s → ends_with_crlf s ≡ false
unfolding ends_with_crlf
ends_with_crlf-no_newline [] h = refl
ends_with_crlf-no_newline (c ∷ []) h = refl
ends_with_crlf-no_newline (c ∷ d ∷ []) h = ground arith
ends_with_crlf-no_newline (c ∷ d ∷ e ∷ s) h = ends_with_crlf-no_newline (d ∷ e ∷ s) h.1

-- When the stream ends, without an error, before the newline of a line, reading a header does not
-- end, whatever fuel it is given.
pub read_from-end_of_stream :
    (fuel : ℕ) (s : Bytes) → All (λ c. c ≢ b'\n') s → read_from fuel (input s none) ≡ running
unfolding read_from read_line
read_from-end_of_stream zero s h = refl
read_from-end_of_stream (suc fuel) s h =
    let open_line = ends_with_crlf-no_newline s h in
    rw (read_until-absent b'\n' s h, open_line, read_line_dry fuel s open_line)

-- ===== src/Http/RequestLine/RoundTrip.antt =====
-- A request line that is written is read back.
use mathlib.Core.List.{append_assoc}
use wruster.Base.{
  ℕ, ◌+◌, ◌-◌, ◌<◌, ◌≤◌, ◌≡◌, ◌≢◌, refl, sym, ap, true, false, Option, some, List, [], ◌∷◌, ◌++◌,
  Bytes, All, All-append, arith, length, take, get_elem?, length-append, ltb, ◌==◌,
}
use wruster.Base.Utf8.{IsAscii, from_utf8_lossy-ascii}
use wruster.Http.Error.{IoError, ok}
use wruster.Http.Io.Laws.{read_until-append}
use wruster.Http.Io.{Call, takes, write as write_to, write_call}
use wruster.Http.Method
use wruster.Http.Method.{HttpMethod, get}
use wruster.Http.RequestLine.{
  HttpRequestLine, without_last, second_last_is_cr, parse_method, parse_uri, parse_version,
  read_from, line_of, write,
}

-- A request line that can be written: ASCII texts, a path with no space and a version with no
-- newline, neither of them empty.
pub record IsWritable (l : HttpRequestLine) : Type 0 where
  pub uri_ascii : IsAscii l.uri
  pub uri_ne_nil : l.uri ≢ []
  pub uri_no_space : All (λ c. c ≢ b' ') l.uri
  pub version_ascii : IsAscii l.version
  pub version_ne_nil : l.version ≢ []
  pub version_no_newline : All (λ c. c ≢ b'\n') l.version

take-length-append : (s t : Bytes) → take (length s) (s ++ t) ≡ s
take-length-append [] t = refl
take-length-append (c ∷ s) t = ap (◌∷◌ c) (take-length-append s t)

pub without_last-append : (s t : Bytes) → without_last (length t) (s ++ t) ≡ s
without_last-append s t =
    let size : length (s ++ t) - length t ≡ length s = omega (arith, length-append s t) in
    rw (size, take-length-append s t)

length-pos : (s : Bytes) → s ≢ [] → 0 < length s
length-pos [] ne = absurd (ne refl)
length-pos (c ∷ s) ne = omega arith

method-no_space : (m : HttpMethod) → All (λ c. c ≢ b' ') (Method.to_string m)
unfolding Method.to_string
method-no_space get = omega arith
method-no_space _ = omega arith

method-IsAscii : (m : HttpMethod) → IsAscii (Method.to_string m)
unfolding Method.to_string
method-IsAscii get = omega arith
method-IsAscii _ = omega arith

method-ne-nil : (m : HttpMethod) → Method.to_string m ≢ []
unfolding Method.to_string
method-ne-nil get e = cc
method-ne-nil _ e = cc

-- A part is longer than its delimiter.
append_long : (s t : Bytes) (n : ℕ) → s ≢ [] → n ≤ length t + 1 → ltb (length (s ++ t)) n ≡ false
append_long s t n ne h = ground (arith, length-append s t, length-pos s ne)

parse_method-to_string : (m : HttpMethod) → parse_method (Method.to_string m ++ b' ' ∷ []) ≡ ok m
unfolding parse_method
parse_method-to_string m =
    let s = Method.to_string m in
    let some_bytes : (length (s ++ b' ' ∷ []) == 0) ≡ false =
      ground (arith, length-append s (b' ' ∷ [])) in
    rw (
      some_bytes,
      append_long s (b' ' ∷ []) 2 (method-ne-nil m) (omega arith),
      without_last-append s (b' ' ∷ []),
      from_utf8_lossy-ascii s (method-IsAscii m),
      Method.from_str-to_string m,
    )

parse_uri-append : (s : Bytes) → s ≢ [] → IsAscii s → parse_uri (s ++ b' ' ∷ []) ≡ ok s
unfolding parse_uri
parse_uri-append s ne h = rw (
  append_long s (b' ' ∷ []) 2 ne (omega arith),
  without_last-append s (b' ' ∷ []),
  from_utf8_lossy-ascii s h,
)

get_elem?-append : (s t : Bytes) (c : ℕ) → get_elem? (s ++ (c ∷ t)) (length s) ≡ some c
get_elem?-append [] t c = refl
get_elem?-append (x ∷ s) t c = get_elem?-append s t c

second_last-append : (s : Bytes) → second_last_is_cr (s ++ b'\r' ∷ b'\n' ∷ []) ≡ true
unfolding second_last_is_cr
second_last-append s =
    let place : length (s ++ (b'\r' ∷ b'\n' ∷ [])) - 2 ≡ length s =
      omega (arith, length-append s (b'\r' ∷ b'\n' ∷ [])) in
    rw (place, get_elem?-append s (b'\n' ∷ []) b'\r', second_last_is_cr)

parse_version-append :
    (s : Bytes) → s ≢ [] → IsAscii s → parse_version (s ++ b'\r' ∷ b'\n' ∷ []) ≡ ok s
unfolding parse_version
parse_version-append s ne h = rw (
  append_long s (b'\r' ∷ b'\n' ∷ []) 3 ne (omega arith),
  second_last-append s,
  without_last-append s (b'\r' ∷ b'\n' ∷ []),
  from_utf8_lossy-ascii s h,
)

-- Read from an input that starts with its line, a request line is itself; the rest stays unread.
pub read_from-line_of_request :
    (l : HttpRequestLine) (rest : Bytes) (ending : Option IoError)
    → IsWritable l
    → read_from (record { unread = line_of l ++ rest; ending = ending })
      ≡ ok (l, record { unread = rest; ending = ending })
unfolding read_from line_of
read_from-line_of_request l rest ending v =
    let m = Method.to_string l.method in
    let after_uri = l.version ++ (b'\r' ∷ b'\n' ∷ rest) in
    let line : (m ++ (b' ' ∷ (l.uri ++ (b' ' ∷ (l.version ++ (b'\r' ∷ b'\n' ∷ [])))))) ++ rest
        ≡ m ++ (b' ' ∷ (l.uri ++ (b' ' ∷ after_uri))) =
      simp append_assoc in
    let ended : after_uri ≡ (l.version ++ b'\r' ∷ []) ++ (b'\n' ∷ rest) =
      sym (append_assoc l.version (b'\r' ∷ []) (b'\n' ∷ rest)) in
    let kept : All (λ c. c ≢ b'\n') (l.version ++ b'\r' ∷ []) =
      All-append _ l.version (b'\r' ∷ []) v.version_no_newline ((λ e. omega arith), tt) in
    let shape = append_assoc l.version (b'\r' ∷ []) (b'\n' ∷ []) in
    rw (
      line,
      read_until-append b' ' m (l.uri ++ (b' ' ∷ after_uri)) ending (method-no_space l.method),
      parse_method-to_string l.method,
      read_until-append b' ' l.uri after_uri ending v.uri_no_space,
      parse_uri-append l.uri v.uri_ne_nil v.uri_ascii,
      ended,
      read_until-append b'\n' (l.version ++ b'\r' ∷ []) rest ending kept,
      shape,
      parse_version-append l.version v.version_ne_nil v.version_ascii,
    )

-- A writer whose next call takes only a part of the line is given that part and no more, and the
-- write reports success all the same.
write_short :
    (l : HttpRequestLine) (written : Bytes) (n : ℕ) (calls : List Call)
    → write l (record { written = written; calls = takes n ∷ calls })
      ≡ ok (record { written = written ++ take n (line_of l); calls = calls })
unfolding write write_to write_call
write_short l written n calls = refl

pub write-reliable :
    (l : HttpRequestLine) (written : Bytes)
    → write l (record { written = written; calls = [] })
      ≡ ok (record { written = written ++ line_of l; calls = [] })
unfolding write write_to write_call
write-reliable l written = refl

-- ===== src/Http/Header/Line.antt =====
-- A header and its line: what is written is read back.
use mathlib.Core.List.{append_assoc}
use mathlib.Core.Path.{subst}
use mathlib.Core.Bool.{false≢true}
use wruster.Base.{
  ℕ, suc, ◌<◌, ◌≡◌, ◌≢◌, refl, sym, ap, ◌∙◌, true, false, Option, some, [], ◌∷◌, ◌++◌, Bytes, All,
  All-append, arith, codes,
}
use wruster.Http.Chars.{
  is_valid_token_char, is_valid_field_content, is_valid_vchar, is_optional_white_space, is_ascii,
  is_ascii_alphanumeric, contains,
}
use wruster.Http.Error.{IoError, ok, map_err, >>=-eq-ok, map_err-eq-ok}
use wruster.Http.Header.Parse.{
  IsToken, crlf, token-append, parse_header_line-content, field_value-ascii,
}
use wruster.Http.Header.{
  Header, token, skip_white_space, field_value, parse_value, parse_name, parse_header_line,
  ends_with_crlf, read_line, read_from, write, normalize_header_name, of_write_error,
}
use wruster.Http.Io.{Output, write_all}
use wruster.Http.Io.Laws.{read_until-append, write_all-reliable, write_all-written}

-- The line that a header is written as.
abbrev pub line_of : Header → Bytes
line_of h = h.name ++ (b':' ∷ b' ' ∷ (h.value ++ crlf))

abbrev pub IsText : Bytes → Type 0
IsText s = All (λ c. (is_valid_field_content c ≡ true) × (c < 128)) s

-- A header that a line can hold: a normalised token for a name, and an ASCII value of allowed
-- characters with no white space in front.
pub record IsWritable (h : Header) : Type 0 where
  pub name_token : IsToken h.name
  pub name_ne_nil : h.name ≢ []
  pub name_normal : normalize_header_name h.name ≡ h.name
  pub value_text : IsText h.value
  pub value_starts : skip_white_space h.value ≡ h.value

token-ne-newline : (c : ℕ) → is_valid_token_char c ≡ true → c ≢ b'\n'
unfolding is_valid_token_char is_ascii is_ascii_alphanumeric contains
token-ne-newline c h e = false≢true (rw e at h)

field_content-ne-newline : (c : ℕ) → is_valid_field_content c ≡ true → c ≢ b'\n'
unfolding is_valid_field_content is_valid_vchar is_optional_white_space
field_content-ne-newline c h e = ground arith

IsToken-no_newline : (s : Bytes) → IsToken s → All (λ c. c ≢ b'\n') s
IsToken-no_newline [] h = tt
IsToken-no_newline (c ∷ s) h = (token-ne-newline c h.0, IsToken-no_newline s h.1)

IsText-no_newline : (s : Bytes) → IsText s → All (λ c. c ≢ b'\n') s
IsText-no_newline [] h = tt
IsText-no_newline (c ∷ s) h = (field_content-ne-newline c h.0.0, IsText-no_newline s h.1)

ends_with_crlf-append : (s : Bytes) → ends_with_crlf (s ++ crlf) ≡ true
unfolding ends_with_crlf
ends_with_crlf-append [] = refl
ends_with_crlf-append (c ∷ []) = refl
ends_with_crlf-append (c ∷ d ∷ []) = refl
ends_with_crlf-append (c ∷ d ∷ e ∷ s) = ends_with_crlf-append (d ∷ e ∷ s)

-- A line with no newline before its ending is read in one round, and nothing behind it.
pub read_line-append :
    (fuel : ℕ) (s rest : Bytes) (ending : Option IoError)
    → All (λ c. c ≢ b'\n') s
    → read_line (suc fuel) [] (record { unread = s ++ (b'\r' ∷ b'\n' ∷ rest); ending = ending })
      ≡ ok (s ++ crlf, record { unread = rest; ending = ending })
unfolding read_line
read_line-append fuel s rest ending h =
    let line : s ++ (b'\r' ∷ b'\n' ∷ rest) ≡ (s ++ b'\r' ∷ []) ++ (b'\n' ∷ rest) =
      sym (append_assoc s (b'\r' ∷ []) (b'\n' ∷ rest)) in
    let kept : All (λ c. c ≢ b'\n') (s ++ b'\r' ∷ []) =
      All-append _ s (b'\r' ∷ []) h ((λ e. omega arith), tt) in
    let shape : (s ++ b'\r' ∷ []) ++ b'\n' ∷ [] ≡ s ++ crlf = append_assoc s _ _ in
    rw (
      line,
      read_until-append b'\n' (s ++ b'\r' ∷ []) rest ending kept,
      shape,
      ends_with_crlf-append s,
    )

colon-stops : is_valid_token_char b':' ≡ false
unfolding is_valid_token_char is_ascii is_ascii_alphanumeric contains
colon-stops = refl

skip-space : (s : Bytes) → skip_white_space (b' ' ∷ s) ≡ skip_white_space s
unfolding skip_white_space is_optional_white_space
skip-space s = refl

parse_content :
    (n : ℕ) (name value : Bytes)
    → IsWritable (record { name = n ∷ name; value = value })
    → parse_header_line (((n ∷ name) ++ (b':' ∷ b' ' ∷ value)) ++ crlf)
      ≡ ok (some (record { name = n ∷ name; value = value }))
unfolding parse_name parse_value field_value skip_white_space is_optional_white_space
parse_content n name value v =
    let read : token ((n ∷ name) ++ (b':' ∷ b' ' ∷ value)) ≡ (n ∷ name, b':' ∷ b' ' ∷ value) =
      token-append (n ∷ name) (b' ' ∷ value) b':' v.name_token colon-stops in
    parse_header_line-content n (name ++ (b':' ∷ b' ' ∷ value))
    ∙ rw (
      read,
      skip-space value,
      v.value_starts,
      field_value-ascii value v.value_text,
      v.name_normal,
    )

-- The written line, parsed, is the header.
pub parse_header_line-line_of :
    (h : Header) → IsWritable h → parse_header_line (line_of h) ≡ ok (some h)
parse_header_line-line_of h v = go h.name refl
  where
    go : (name : Bytes) → h.name ≡ name → parse_header_line (line_of h) ≡ ok (some h)
    go [] e = absurd (v.name_ne_nil e)
    go (n ∷ name) e =
        let v' : IsWritable (record { name = n ∷ name; value = h.value }) =
          subst (λ t. IsWritable (record { name = t; value = h.value })) e v in
        let line : line_of h ≡ ((n ∷ name) ++ (b':' ∷ b' ' ∷ h.value)) ++ crlf =
          ap (λ t. t ++ (b':' ∷ b' ' ∷ (h.value ++ crlf))) e
          ∙ sym (append_assoc (n ∷ name) (b':' ∷ b' ' ∷ h.value) crlf) in
        rw line (
          parse_content n name h.value v'
          ∙ ap (λ t. ok (some (record { name = t; value = h.value }))) (sym e))

-- Writing a header puts its line behind what was written before, whatever calls the writer makes
-- of it, when it succeeds.
write-line_of :
    (h : Header) (to to' : Output) → write h to ≡ ok to' → to'.written ≡ to.written ++ line_of h
unfolding write
write-line_of h to to' e =
    let (a, ea, e1) = >>=-eq-ok (map_err of_write_error (write_all to h.name)) _ e in
    let (b, eb, e2) = >>=-eq-ok (map_err of_write_error (write_all a (codes ": "))) _ e1 in
    let (c, ec, e3) = >>=-eq-ok (map_err of_write_error (write_all b h.value)) _ e2 in
    write_all-written c to' crlf (map_err-eq-ok of_write_error _ e3)
    ∙ rw
        (
          write_all-written b c h.value (map_err-eq-ok of_write_error _ ec),
          write_all-written a b (codes ": ") (map_err-eq-ok of_write_error _ eb),
          write_all-written to a h.name (map_err-eq-ok of_write_error _ ea),
        )
        (simp append_assoc)

-- A writer that takes everything makes the write succeed.
pub write-reliable :
    (h : Header) (written : Bytes)
    → write h (record { written = written; calls = [] })
      ≡ ok (record { written = written ++ line_of h; calls = [] })
unfolding write
write-reliable h written =
    rw
      (
        write_all-reliable written h.name,
        write_all-reliable (written ++ h.name) (codes ": "),
        write_all-reliable ((written ++ h.name) ++ codes ": ") h.value,
        write_all-reliable (((written ++ h.name) ++ codes ": ") ++ h.value) crlf,
      )
      (simp append_assoc)

-- A writable header is read back from its line, whatever follows it in the input.
pub read_from-line_of :
    (fuel : ℕ) (h : Header) (rest : Bytes) (ending : Option IoError)
    → IsWritable h
    → read_from (suc fuel) (record { unread = line_of h ++ rest; ending = ending })
      ≡ ok (some h, record { unread = rest; ending = ending })
unfolding read_from
read_from-line_of fuel h rest ending v =
    let content = h.name ++ (b':' ∷ b' ' ∷ h.value) in
    let line : line_of h ++ rest ≡ content ++ (b'\r' ∷ b'\n' ∷ rest) = simp append_assoc in
    let shape : content ++ crlf ≡ line_of h = simp append_assoc in
    let kept : All (λ c. c ≢ b'\n') content =
      All-append _ h.name _ (IsToken-no_newline h.name v.name_token)
        ((λ e. omega arith), ((λ e. omega arith), IsText-no_newline h.value v.value_text)) in
    rw (line, read_line-append fuel content rest ending kept, shape, parse_header_line-line_of h v)

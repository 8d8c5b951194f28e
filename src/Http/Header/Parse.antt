-- ===== src/Http/Header/Parse.antt =====
-- What parsing a header line gives, and when it panics.
use mathlib.Core.List.{append-nil}
use mathlib.Core.Path.{subst}
use wruster.Base.{
  ℕ, suc, ◌+◌, ◌-◌, ◌<◌, ◌≡◌, ◌≢◌, ◌↔◌, refl, sym, ap, ◌∙◌, inl, inr, true, false, none, some, [],
  ◌∷◌, ◌++◌, Bytes, All, arith, length, take, ◌==◌, ltb, length-append, Bool-cases,
}
use wruster.Http.Chars.{is_valid_token_char, is_valid_field_content, is_ascii, utf8}
use wruster.Http.Error.{ok, panic}
use wruster.Http.Header.{token, field_value, parse_value, parse_name, parse_header_line}

abbrev pub IsToken : Bytes → Type 0
IsToken s = All (λ c. is_valid_token_char c ≡ true) s

abbrev pub crlf : Bytes
crlf = b'\r' ∷ b'\n' ∷ []

pub token-append :
    (s rest : Bytes) (c : ℕ)
    → IsToken s
    → is_valid_token_char c ≡ false
    → token (s ++ (c ∷ rest)) ≡ (s, c ∷ rest)
unfolding token
token-append [] rest c h stop = ground arith
token-append (x ∷ s) rest c h stop = ground (arith, token-append s rest c h.1 stop)

token_all : (s : Bytes) → IsToken s → token s ≡ (s, [])
unfolding token
token_all [] h = refl
token_all (x ∷ s) h = ground (arith, token_all s h.1)

-- The token is the longest one at the front of the line.
token-splits : (s : Bytes) → ((token s).0 ++ (token s).1 ≡ s) × IsToken (token s).0
unfolding token
token-splits [] = (refl, tt)
token-splits (c ∷ s) = elim (Bool-cases (is_valid_token_char c)) [
  | inl e ↦ rw e (ap (◌∷◌ c) (token-splits s).0, (e, (token-splits s).1))
  | inr e ↦ rw e (refl, tt)
]

take-length-append : (s t : Bytes) → take (length s) (s ++ t) ≡ s
take-length-append [] t = refl
take-length-append (c ∷ s) t = ap (◌∷◌ c) (take-length-append s t)

-- A line with its ending is parsed by its content.
pub parse_header_line-content :
    (c : ℕ) (s : Bytes)
    → parse_header_line ((c ∷ s) ++ crlf) ≡ parse_name (token (c ∷ s)).0 (token (c ∷ s)).1
unfolding parse_header_line
parse_header_line-content c s =
    let size : length (s ++ crlf) ≡ length s + 2 = length-append s crlf in
    let long : ltb (suc (length s + 2)) 2 ≡ false = ground arith in
    let more : (suc (length s + 2) == 2) ≡ false = ground arith in
    let content : suc (length s + 2) - 2 ≡ suc (length s) = omega arith in
    rw (size, long, more, content, take-length-append s crlf)

-- An empty line ends the headers.
pub parse_header_line_empty : parse_header_line crlf ≡ ok none
unfolding parse_header_line
parse_header_line_empty = refl

parse_value-ne-panic : (name rest : Bytes) → parse_value name rest ≢ panic
unfolding parse_value
parse_value-ne-panic name [] e = cc
parse_value-ne-panic name (c ∷ rest) e = ground arith

parse_name-panic : (name rest : Bytes) → parse_name name rest ≡ panic → rest ≡ []
unfolding parse_name
parse_name-panic [] rest e = cc
parse_name-panic (n ∷ name) [] e = refl
parse_name-panic (n ∷ name) (c ∷ rest) e = ground (arith, parse_value-ne-panic (n ∷ name) rest)

token_of_rest_nil : (s : Bytes) → (token s).1 ≡ [] → IsToken s
token_of_rest_nil s e =
    subst IsToken (sym (append-nil _) ∙ ap (◌++◌ (token s).0) (sym e) ∙ (token-splits s).0)
      (token-splits s).1

-- Of the lines with some content, exactly those whose content is a bare token make the parser index
-- past their end.
pub parse_header_line-panics :
    (c : ℕ) (s : Bytes) → (parse_header_line ((c ∷ s) ++ crlf) ≡ panic) ↔ IsToken (c ∷ s)
parse_header_line-panics c s = (
  λ e. token_of_rest_nil (c ∷ s) (parse_name-panic _ _ (sym (parse_header_line-content c s) ∙ e)),
  λ h. parse_header_line-content c s ∙ rw (token_all (c ∷ s) h) (unfold parse_name in refl),
)

pub field_value-ascii :
    (s : Bytes)
    → All (λ c. (is_valid_field_content c ≡ true) × (c < 128)) s
    → field_value s ≡ some s
unfolding field_value utf8 is_ascii
field_value-ascii [] h = refl
field_value-ascii (c ∷ s) h = ground (arith, field_value-ascii s h.1)

-- ===== src/Http/Header/Normalize.antt =====
-- Normalising the name of a header.
use wruster.Base.{ℕ, suc, ◌≡◌, refl, ap, Bool, true, false, [], ◌∷◌, Bytes, All, arith, length}
use wruster.Http.Chars.{is_ascii_alphanumeric, to_ascii_uppercase, is_valid_token_char, is_ascii}
use wruster.Http.Header.{next_flag, normalize_from, normalize_header_name}

upper-alphanumeric :
    (c : ℕ) → is_ascii_alphanumeric c ≡ true → is_ascii_alphanumeric (to_ascii_uppercase c) ≡ true
unfolding is_ascii_alphanumeric to_ascii_uppercase
upper-alphanumeric c h = ground arith

upper-upper : (c : ℕ) → to_ascii_uppercase (to_ascii_uppercase c) ≡ to_ascii_uppercase c
unfolding to_ascii_uppercase
upper-upper c = ground arith

alphanumeric-token : (c : ℕ) → is_ascii_alphanumeric c ≡ true → is_valid_token_char c ≡ true
unfolding is_valid_token_char is_ascii is_ascii_alphanumeric
alphanumeric-token c h = ground arith

upper-token :
    (c : ℕ) → is_ascii_alphanumeric c ≡ true → is_valid_token_char (to_ascii_uppercase c) ≡ true
upper-token c h = alphanumeric-token (to_ascii_uppercase c) (upper-alphanumeric c h)

normalize_from-idempotent :
    (next_upper : Bool) (s : Bytes)
    → normalize_from next_upper (normalize_from next_upper s) ≡ normalize_from next_upper s
unfolding normalize_from
normalize_from-idempotent next_upper [] = refl
normalize_from-idempotent true (c ∷ s) = ground (
  arith,
  upper-alphanumeric c,
  upper-upper c,
  normalize_from-idempotent false s,
  normalize_from-idempotent true s,
)
normalize_from-idempotent false (c ∷ s) =
    ground (arith, normalize_from-idempotent false s, normalize_from-idempotent true s)

-- Normalising a name twice is normalising it once.
normalize_header_name-normalize_header_name :
    (s : Bytes) → normalize_header_name (normalize_header_name s) ≡ normalize_header_name s
unfolding normalize_header_name
normalize_header_name-normalize_header_name s = normalize_from-idempotent true s

pub length-normalize_from :
    (next_upper : Bool) (s : Bytes) → length (normalize_from next_upper s) ≡ length s
unfolding normalize_from
length-normalize_from next_upper [] = refl
length-normalize_from next_upper (c ∷ s) = ap suc (length-normalize_from (next_flag next_upper c) s)

pub normalize_from-token :
    (next_upper : Bool) (s : Bytes)
    → All (λ c. is_valid_token_char c ≡ true) s
    → All (λ c. is_valid_token_char c ≡ true) (normalize_from next_upper s)
unfolding normalize_from
normalize_from-token next_upper [] h = tt
normalize_from-token next_upper (c ∷ s) h =
    (ground (arith, upper-token c), normalize_from-token (next_flag next_upper c) s h.1)

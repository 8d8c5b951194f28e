-- ===== src/Http/Chars.antt =====
-- wruster/src/http/mod.rs: `MessageChar`, on characters up to U+00FF, which are the bytes of a line
-- read as characters; and how such a character is pushed onto a `String`.
use wruster.Base.{
  ℕ, ◌+◌, ◌-◌, ◌/◌, ◌%◌, Bool, false, ◌&&◌, ◌||◌, [], ◌∷◌, Bytes, ◌==◌, ltb, leb, if◌then◌else◌,
  codes,
}

abbrev pub within : ℕ → ℕ → ℕ → Bool
within lo hi c = leb lo c && leb c hi

unfoldable pub is_ascii : ℕ → Bool
is_ascii c = ltb c 128

abbrev pub is_ascii_lowercase : ℕ → Bool
is_ascii_lowercase = within b'a' b'z'

abbrev pub is_ascii_uppercase : ℕ → Bool
is_ascii_uppercase = within b'A' b'Z'

unfoldable pub is_ascii_alphanumeric : ℕ → Bool
is_ascii_alphanumeric c = is_ascii_lowercase c || is_ascii_uppercase c || within b'0' b'9' c

unfoldable pub to_ascii_uppercase : ℕ → ℕ
to_ascii_uppercase c = if is_ascii_lowercase c then c - 32 else c

unfoldable pub contains : Bytes → ℕ → Bool
contains [] c = false
contains (x ∷ xs) c = x == c || contains xs c

abbrev pub valid_token_symbols : Bytes
valid_token_symbols = codes "!#$%&'*+-.^_`|~"

unfoldable pub is_valid_token_char : ℕ → Bool
is_valid_token_char c =
    if is_ascii c then is_ascii_alphanumeric c || contains valid_token_symbols c else false

unfoldable pub is_valid_vchar : ℕ → Bool
is_valid_vchar c = within 33 126 c || leb 128 c

unfoldable pub is_optional_white_space : ℕ → Bool
is_optional_white_space c = c == b' ' || c == b'\t'

unfoldable pub is_valid_field_content : ℕ → Bool
is_valid_field_content c = is_valid_vchar c || is_optional_white_space c

-- `String::push`: the UTF-8 bytes of the character.
unfoldable pub utf8 : ℕ → Bytes
utf8 c = if is_ascii c then c ∷ [] else (192 + c / 64) ∷ (128 + c % 64) ∷ []

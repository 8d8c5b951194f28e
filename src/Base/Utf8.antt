-- ===== src/Base/Utf8.antt =====
-- Strings as the standard library makes and trims them: `String::from_utf8_lossy`, `str::trim_end`
-- and `str::to_lowercase`, on the UTF-8 bytes of a string.
use wruster.Base.Lists.{Bytes, All, length, drop}
use wruster.Base.Tests.{ltb, leb, ◌==◌, if◌then◌else◌}
use Prim.Native.Nat.{ℕ, zero, suc, ◌+◌, ◌-◌, ◌<◌}
use mathlib.Core.Bool.{Bool, false, ◌&&◌, ◌||◌, not}
use mathlib.Core.List.{[], ◌∷◌, ◌++◌, reverse}
use mathlib.Core.Path.{◌≡◌, refl}
use native.Mathlib.Omega.{arith}

-- Between two characters, or inside one: its bytes so far, how many are missing, and the range of
-- the next one.
pub data Decoder : Type 0 where
  start : Decoder
  need : Bytes → ℕ → ℕ → ℕ → Decoder

-- U+FFFD
abbrev pub replacement : Bytes
replacement = 0xEF ∷ 0xBF ∷ 0xBD ∷ []

abbrev inside : ℕ → ℕ → ℕ → Bool
inside lo hi c = leb lo c && leb c hi

unfoldable pub first_byte : ℕ → Bytes × Decoder
first_byte c =
    if ltb c 128
    then (c ∷ [], start)
    else if inside 0xC2 0xDF c
    then ([], need (c ∷ []) 1 0x80 0xBF)
    else if c == 0xE0
    then ([], need (c ∷ []) 2 0xA0 0xBF)
    else if c == 0xED
    then ([], need (c ∷ []) 2 0x80 0x9F)
    else if inside 0xE1 0xEF c
    then ([], need (c ∷ []) 2 0x80 0xBF)
    else if c == 0xF0
    then ([], need (c ∷ []) 3 0x90 0xBF)
    else if inside 0xF1 0xF3 c
    then ([], need (c ∷ []) 3 0x80 0xBF)
    else if c == 0xF4
    then ([], need (c ∷ []) 3 0x80 0x8F)
    else (replacement, start)

unfoldable pub next_byte : Decoder → ℕ → Bytes × Decoder
unfolding first_byte
next_byte start c = first_byte c
next_byte (need seen missing lo hi) c =
    if inside lo hi c
    then (if missing == 1
        then (seen ++ c ∷ [], start)
        else ([], need (seen ++ c ∷ []) (missing - 1) 0x80 0xBF))
    else (let (out, d) = first_byte c in (replacement ++ out, d))

unfoldable pub decode : Decoder → Bytes → Bytes
unfolding next_byte
decode start [] = []
decode (need seen missing lo hi) [] = replacement
decode d (c ∷ cs) = let (out, d') = next_byte d c in out ++ decode d' cs

-- `String::from_utf8_lossy`
unfoldable pub from_utf8_lossy : Bytes → Bytes
unfolding decode
from_utf8_lossy = decode start

abbrev pub IsAscii : Bytes → Type 0
IsAscii = All (λ c. c < 128)

-- ASCII bytes are kept as they are.
pub from_utf8_lossy-ascii : (s : Bytes) → IsAscii s → from_utf8_lossy s ≡ s
unfolding from_utf8_lossy
from_utf8_lossy-ascii [] h = refl
from_utf8_lossy-ascii (c ∷ s) h = ground (arith, from_utf8_lossy-ascii s h.1)

-- The bytes of the white space at the front of the reversed string: none, or those of one of the
-- characters U+0009 to U+000D, U+0020, U+0085, U+00A0, U+1680, U+2000 to U+200A, U+2028, U+2029,
-- U+202F, U+205F and U+3000.
unfoldable pub space_width : Bytes → ℕ
space_width [] = 0
space_width (a ∷ []) = if inside 9 13 a || a == 32 then 1 else 0
space_width (a ∷ b ∷ []) =
    if inside 9 13 a || a == 32 then 1 else if b == 0xC2 && (a == 0x85 || a == 0xA0) then 2 else 0
space_width (a ∷ b ∷ c ∷ cs) =
    if inside 9 13 a || a == 32
    then 1
    else if b == 0xC2 && (a == 0x85 || a == 0xA0)
    then 2
    else if (c == 0xE1 && b == 0x9A && a == 0x80)
        || (c == 0xE2 && b == 0x80 && (inside 0x80 0x8A a || a == 0xA8 || a == 0xA9 || a == 0xAF))
        || (c == 0xE2 && b == 0x81 && a == 0x9F)
        || (c == 0xE3 && b == 0x80 && a == 0x80)
    then 3
    else 0

-- One round for each byte is enough, since a round that goes on drops one.
unfoldable pub trim_rev : ℕ → Bytes → Bytes
trim_rev zero s = s
trim_rev (suc fuel) s =
    let rest = trim_rev fuel (drop (space_width s) s) in if space_width s == 0 then s else rest

-- `str::trim_end`
unfoldable pub trim_end : Bytes → Bytes
unfolding trim_rev space_width
trim_end s = reverse (trim_rev (length s) (reverse s))

-- The capital letters U+00C0 to U+00DE but U+00D7 have 0xC3 for their first byte. The flag tells
-- that this byte stands in front. Capital letters above U+00FF are kept.
unfoldable pub lowercase_from : Bool → Bytes → Bytes
lowercase_from after_c3 [] = []
lowercase_from after_c3 (c ∷ cs) =
    (if inside b'A' b'Z' c || (after_c3 && inside 0x80 0x9E c && not (c == 0x97))
      then c + 32
      else c)
    ∷ lowercase_from (c == 0xC3) cs

-- `str::to_lowercase`
unfoldable pub to_lowercase : Bytes → Bytes
unfolding lowercase_from
to_lowercase = lowercase_from false

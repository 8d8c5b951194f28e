-- ===== src/Base/Decimal.antt =====
-- Decimal numbers as the standard library prints and parses a `usize` of 64 bits.
use mathlib.Core.List.{append_assoc, append-nil}
use wruster.Base.Text.{codes}
use wruster.Base.Lists.{Bytes, All, All-append}
use wruster.Base.Tests.{ltb, leb, ◌==◌, if◌then◌else◌, Bool-cases, lt→ltb, ltb→lt}
use Prim.Native.Nat.{ℕ, zero, suc, ◌+◌, ◌-◌, ◌*◌, ◌/◌, ◌%◌, ◌^◌, ◌<◌}
use mathlib.Core.Bool.{Bool, true, ◌&&◌}
use mathlib.Core.List.{[], ◌∷◌, ◌++◌}
use mathlib.Core.Logic.{◌≢◌, inl, inr}
use mathlib.Core.Path.{◌≡◌, refl, ap, sym, ◌∙◌}
use native.Mathlib.Omega.{arith}

abbrev pub usize_limit : ℕ
usize_limit = 2 ^ 64

-- The digits of `n`, where `n < fuel`.
unfoldable pub decimal_fuel : ℕ → ℕ → Bytes
decimal_fuel zero n = []
decimal_fuel (suc fuel) n =
    let high = decimal_fuel fuel (n / 10) in
    if ltb n 10 then (b'0' + n) ∷ [] else high ++ (b'0' + n % 10) ∷ []

-- `n.to_string()`
unfoldable pub decimal : ℕ → Bytes
unfolding decimal_fuel
decimal n = decimal_fuel (n + 1) n

unfoldable pub is_digit : ℕ → Bool
is_digit c = leb b'0' c && leb c b'9'

-- The outcome of parsing: a number, or one of the errors of `ParseIntError`.
pub data ParseInt : Type 0 where
  value : ℕ → ParseInt
  empty invalid_digit overflow : ParseInt

-- The text of the error.
unfoldable pub parse_error : ParseInt → Bytes
parse_error (value n) = []
parse_error empty = codes "cannot parse integer from empty string"
parse_error invalid_digit = codes "invalid digit found in string"
parse_error overflow = codes "number too large to fit in target type"

-- The checked additions of `str::parse::<usize>`.
unfoldable pub parse_digits : ℕ → ℕ → Bytes → ParseInt
unfolding is_digit
parse_digits limit acc [] = value acc
parse_digits limit acc (c ∷ cs) =
    let next = acc * 10 + (c - b'0') in
    let rest = parse_digits limit next cs in
    if is_digit c then (if ltb next limit then rest else overflow) else invalid_digit

unfoldable pub parse_unsigned : ℕ → Bytes → ParseInt
unfolding parse_digits
parse_unsigned limit [] = empty
parse_unsigned limit (c ∷ []) = parse_digits limit 0 (c ∷ [])
parse_unsigned limit (c ∷ d ∷ cs) =
    let signed = parse_digits limit 0 (d ∷ cs) in
    let plain = parse_digits limit 0 (c ∷ d ∷ cs) in if c == b'+' then signed else plain

unfoldable pub parse_usize : Bytes → ParseInt
unfolding parse_unsigned
parse_usize = parse_unsigned usize_limit

parse_digits-digit :
    (limit acc d : ℕ) (rest : Bytes)
    → d < 10
    → acc * 10 + d < limit
    → parse_digits limit acc ((b'0' + d) ∷ rest) ≡ parse_digits limit (acc * 10 + d) rest
unfolding parse_digits
parse_digits-digit limit acc d rest small fits =
    let same : acc * 10 + (b'0' + d - b'0') ≡ acc * 10 + d = omega arith in
    let digit : is_digit (b'0' + d) ≡ true = ground arith in
    let below : ltb (acc * 10 + d) limit ≡ true = lt→ltb _ _ fits in rw (same, digit, below)

parse_digits-decimal_fuel :
    (limit fuel n : ℕ) (rest : Bytes)
    → n < fuel
    → n < limit
    → parse_digits limit 0 (decimal_fuel fuel n ++ rest) ≡ parse_digits limit n rest
unfolding parse_digits decimal_fuel
parse_digits-decimal_fuel limit zero n rest f h = elim f [ ]
parse_digits-decimal_fuel limit (suc fuel) n rest f h = elim (Bool-cases (ltb n 10)) [
  | inl small ↦ rw small (
      parse_digits-digit limit 0 n rest (ltb→lt n 10 small) (omega arith)
      ∙ ap (λ t. parse_digits limit t rest) (omega arith))
  | inr large ↦
      rw (large, append_assoc (decimal_fuel fuel (n / 10)) ((b'0' + n % 10) ∷ []) rest)
        (parse_digits-decimal_fuel limit fuel (n / 10) ((b'0' + n % 10) ∷ rest) (ground arith)
            (ground arith)
          ∙ parse_digits-digit limit (n / 10) (n % 10) rest (omega arith) (omega arith)
          ∙ ap (λ t. parse_digits limit t rest) (omega arith))
]

-- Every byte that is printed is a digit, and there is at least one.
pub decimal_fuel-digits :
    (fuel n : ℕ) → n < fuel → All (λ c. is_digit c ≡ true) (decimal_fuel fuel n)
unfolding decimal_fuel is_digit
decimal_fuel-digits zero n h = elim h [ ]
decimal_fuel-digits (suc fuel) n h = elim (Bool-cases (ltb n 10)) [
  | inl small ↦ rw small (ground arith, tt)
  | inr large ↦ rw large (
      All-append _ (decimal_fuel fuel (n / 10)) _ (decimal_fuel-digits fuel (n / 10) (ground arith))
        (ground arith, tt))
]

append-some-ne-nil : (xs : Bytes) (c : ℕ) → xs ++ c ∷ [] ≢ []
append-some-ne-nil [] c e = cc
append-some-ne-nil (x ∷ xs) c e = cc

decimal_fuel-ne-nil : (fuel n : ℕ) → n < fuel → decimal_fuel fuel n ≢ []
unfolding decimal_fuel
decimal_fuel-ne-nil zero n h = elim h [ ]
decimal_fuel-ne-nil (suc fuel) n h = elim (Bool-cases (ltb n 10)) [
  | inl small ↦ rw small (λ e. cc)
  | inr large ↦ rw large (append-some-ne-nil (decimal_fuel fuel (n / 10)) (b'0' + n % 10))
]

-- The digits are parsed by the digit loop, whatever the number of them.
parse_unsigned-digits :
    (limit : ℕ) (s : Bytes)
    → s ≢ []
    → All (λ c. is_digit c ≡ true) s
    → parse_unsigned limit s ≡ parse_digits limit 0 s
unfolding parse_unsigned is_digit
parse_unsigned-digits limit [] ne h = absurd (ne refl)
parse_unsigned-digits limit (c ∷ []) ne h = refl
parse_unsigned-digits limit (c ∷ d ∷ s) ne h = ground arith

-- A number below the limit is read back from its decimal digits.
pub parse_unsigned-decimal : (limit n : ℕ) → n < limit → parse_unsigned limit (decimal n) ≡ value n
parse_unsigned-decimal limit n h =
    unfold decimal in
    (parse_unsigned-digits limit (decimal_fuel (n + 1) n)
        (decimal_fuel-ne-nil (n + 1) n (omega arith)) (decimal_fuel-digits (n + 1) n (omega arith))
      ∙ ap (parse_digits limit 0) (sym (append-nil (decimal_fuel (n + 1) n)))
      ∙ parse_digits-decimal_fuel limit (n + 1) n [] (omega arith) h
      ∙ (unfold parse_digits in refl))

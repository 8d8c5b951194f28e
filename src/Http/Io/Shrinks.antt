-- ===== src/Http/Io/Shrinks.antt =====
-- `std::io`: a reader that ends in an error has fewer bytes to come after each line that it gives.
use wruster.Base.{
  ℕ, ◌<◌, ◌≤◌, ◌≡◌, true, some, [], ◌∷◌, Bytes, length, arith, ◌==◌, Bool-cases, inl, inr,
}
use wruster.Http.Error.{HttpError, HttpResult, IoError, ◌>>=◌, map_err}
use wruster.Http.Error.Settles.{Settles, >>=-Settles, map_err-Settles}
use wruster.Http.Io.{Input, until, read_until}

-- The reader has fewer bytes to come than `n`, and ends in the error `e`.
pub record IsShorter (n : ℕ) (e : IoError) (from : Input) : Type 0 where
  pub shorter : length from.unread < n
  pub ends : from.ending ≡ some e

pub IsShorter-le :
    {m n : ℕ} {e : IoError} (from : Input) → m ≤ n → IsShorter m e from → IsShorter n e from
IsShorter-le from le h = record { shorter = omega (arith, le, h.shorter); ends = h.ends }

until-shorter :
    (delim : ℕ) (s : Bytes) → (until delim s).found ≡ true → length (until delim s).rest < length s
unfolding until
until-shorter delim [] found = cc
until-shorter delim (c ∷ s) found = elim (Bool-cases (c == delim)) [
  | inl here ↦ ground arith
  | inr there ↦ ground (arith, until-shorter delim s)
]

pub read_until-Settles :
    (delim : ℕ) (from : Input) (e : IoError)
    → from.ending ≡ some e
    → Settles (read_until delim from) (λ (chunk, rest). IsShorter (length from.unread) e rest)
unfolding read_until
read_until-Settles delim from e ends = elim (Bool-cases (until delim from.unread).found) [
  | inl found ↦ rw found (record { shorter = until-shorter delim from.unread found; ends = ends })
  | inr missing ↦ rw (missing, ends) tt
]

pub IsShorter-few :
    {n : ℕ} {e : IoError} {from : Input} → IsShorter n e from → length from.unread ≤ n
IsShorter-few h = omega (arith, h.shorter)

-- A step that reads one line from a reader with at most `n` bytes to come.
pub read-Settles {ℓ} :
    {B : Type ℓ} (e : IoError) (delim n : ℕ) (from : Input) (f : IoError → HttpError)
    (next : Bytes × Input → HttpResult B) (Q : B → Type 0)
    → length from.unread ≤ n
    → from.ending ≡ some e
    → ((chunk : Bytes) (rest : Input) → IsShorter n e rest → Settles (next (chunk, rest)) Q)
    → Settles (map_err f (read_until delim from) >>= next) Q
read-Settles e delim n from f next Q few ends then_next =
    >>=-Settles (λ (chunk, rest). IsShorter (length from.unread) e rest) Q
      (map_err f (read_until delim from)) next
      (map_err-Settles _ f (read_until delim from) (read_until-Settles delim from e ends))
      (λ (chunk, rest) short. then_next chunk rest (IsShorter-le rest few short))

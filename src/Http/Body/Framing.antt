-- ===== src/Http/Body/Framing.antt =====
-- How long a body is, by the headers, and that the rest of it is read away.
use wruster.Base.{
  ℕ, zero, suc, ◌+◌, ◌-◌, ◌<◌, ◌≡◌, refl, ap, inl, inr, true, false, Option, none, some, [], ◌∷◌,
  ◌++◌, length-append, Bytes, arith, length, take, drop, if◌then◌else◌, ◌==◌, ltb, leb, codes,
  Bool-cases,
}
use wruster.Base.Decimal.{decimal, usize_limit, parse_usize, parse_unsigned-decimal}
use wruster.Http.Body.{
  Mime, Body, take_input, transfer_encoding, content_length_name, content_type_name, check_encoding,
  declared_length, parsed_length, declared_type, new, read_sized, read_declared, read_from, drain,
  ensure_read, read,
}
use wruster.Http.Error.{ok, IoError}
use wruster.Http.Headers
use wruster.Http.Headers.{Headers}
use wruster.Http.Io.{Input}

take-append : (s rest : Bytes) → take (length s) (s ++ rest) ≡ s
take-append [] rest = refl
take-append (c ∷ s) rest = ap (◌∷◌ c) (take-append s rest)

drop-length : (s : Bytes) → drop (length s) s ≡ []
drop-length [] = refl
drop-length (c ∷ s) = drop-length s

length-take-drop : (n : ℕ) (s : Bytes) → length (take n s) + length (drop n s) ≡ length s
length-take-drop zero s = omega arith
length-take-drop (suc n) [] = omega arith
length-take-drop (suc n) (c ∷ s) = omega (arith, length-take-drop n s)

nil_of_length : (s : Bytes) → length s ≡ 0 → s ≡ []
nil_of_length [] h = refl
nil_of_length (c ∷ s) h = absurd (omega arith)

-- As many bytes as `s` has, and no more.
pub take_input-append :
    (s rest : Bytes) (ending : Option IoError)
    → take_input (length s) (record { unread = s ++ rest; ending = ending })
      ≡ record { unread = s; ending = none }
unfolding take_input
take_input-append s rest ending =
    let enough : leb (length s) (length (s ++ rest)) ≡ true =
      ground (arith, length-append s rest) in
    rw (take-append s rest, enough)

pub declared_length-decimal :
    (n : ℕ) → n < usize_limit → declared_length (some (decimal n ∷ [])) ≡ ok (some n)
unfolding declared_length parsed_length parse_usize
declared_length-decimal n h = rw (parse_unsigned-decimal usize_limit n h)

module _ (mime : Mime) where
  open mime use {Media}

  -- With no transfer encoding, one length `n` below the limit of a usize, and a media type that is
  -- absent or parses, the body is the next `n` bytes of the input, or none for the length 0.
  pub read_from-sized :
      (from : Input) (headers : Headers) (n : ℕ) (media : Option Media)
      → n < usize_limit
      → Headers.get headers transfer_encoding ≡ none
      → Headers.get headers content_length_name ≡ some (decimal n ∷ [])
      → declared_type mime (Headers.get headers content_type_name) ≡ ok media
      → read_from mime from headers
        ≡ ok (if n == 0 then none else some (new mime media n (take_input n from)))
  unfolding read_from check_encoding read_declared read_sized
  read_from-sized from headers n media h te cl ct = elim (Bool-cases (n == 0)) [
    | inl e ↦ rw (te, cl, declared_length-decimal n h, e)
    | inr e ↦ rw (te, cl, declared_length-decimal n h, e, ct)
  ]

  -- The length 0 means no body, whatever the media type is.
  pub read_from-empty :
      (from : Input) (headers : Headers)
      → Headers.get headers transfer_encoding ≡ none
      → Headers.get headers content_length_name ≡ some (codes "0" ∷ [])
      → read_from mime from headers ≡ ok none
  unfolding read_from check_encoding read_declared read_sized declared_length parsed_length
      parse_usize
  read_from-empty from headers te cl = rw (te, cl)

  -- The bytes read and the bytes to come are the declared ones.
  abbrev pub IsFramed : Body Media → Type 0
  IsFramed b = b.bytes_read + length b.content.unread ≡ b.content_length

  -- A read that succeeds keeps the bytes read and the bytes to come together the declared ones.
  read-IsFramed :
      (n : ℕ) (b b' : Body Media) (s : Bytes)
      → IsFramed b
      → read mime n b ≡ ok (s, b')
      → IsFramed b'
  unfolding read
  read-IsFramed n b b' s h e = ground (arith, length-take-drop n b.content.unread)

  -- When the bytes read and the bytes to come are the declared ones, `ensure_read` succeeds and
  -- leaves nothing to come.
  pub ensure_read-drains :
      (b : Body Media)
      → IsFramed b
      → (b' : Body Media) × (ensure_read mime b ≡ ok b') × (b'.content.unread ≡ [])
  unfolding ensure_read drain
  ensure_read-drains b h = elim (Bool-cases (b.bytes_read == b.content_length)) [
    | inl done ↦ (b, rw done, nil_of_length b.content.unread (ground arith))
    | inr more ↦
        let left : b.content_length - b.bytes_read ≡ length b.content.unread = omega arith in
        let order : ltb b.content_length b.bytes_read ≡ false = ground arith in
        let enough : leb (length b.content.unread) (length b.content.unread) ≡ true =
          ground arith in
        (
          record b {
            content = record {
              unread = drop (length b.content.unread) b.content.unread;
              ending = b.content.ending;
            };
          },
          rw (more, order, left, enough),
          drop-length b.content.unread,
        )
  ]

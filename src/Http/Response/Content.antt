-- ===== src/Http/Response/Content.antt =====
-- A response made from content says in its headers what its body holds.
use wruster.Base.{
  ℕ, zero, suc, ◌<◌, ◌≤◌, ◌≡◌, refl, sym, ap, true, [], ◌∷◌, Bytes, arith, length, take, leb, equal,
}
use wruster.Base.Decimal.{usize_limit}
use wruster.Http.Body
use wruster.Http.Body.{
  Mime, Body, declared_type, take_input, content_length_name, content_type_name,
}
use wruster.Http.Headers
use wruster.Http.Io.{Input}
use wruster.Http.Request.RoundTrip.{IsDeclared}
use wruster.Http.Response.{from_content}

length-take : (n : ℕ) (s : Bytes) → n ≤ length s → length (take n s) ≡ n
length-take zero s h = refl
length-take (suc n) [] h = absurd (omega arith)
length-take (suc n) (c ∷ s) h = ap suc (length-take n s (omega arith))

module _ (mime : Mime) where
  open mime use {Media, parse, print, parse-print}

  -- A response made of the first `n` bytes of a content that has as many, for a positive `n` below
  -- the limit of a usize, declares the length and the media type of its body.
  from_content-IsDeclared :
      (content : Input) (n : ℕ) (media : Media)
      → 0 < n
      → n < usize_limit
      → n ≤ length content.unread
      → IsDeclared mime
          (from_content mime content n media).body
          (from_content mime content n media).headers
  unfolding from_content Body.new take_input Headers.add Headers.push_value Headers.new Headers.get
      equal declared_type
  from_content-IsDeclared content n media pos small enough =
      let test : leb n (length content.unread) ≡ true = ground arith in
      (
        pos,
        small,
        sym (length-take n content.unread enough),
        rw test,
        refl,
        refl,
        rw (parse-print media),
      )

-- ===== src/Http/Method.antt =====
-- wruster/src/http/mod.rs: `HttpMethod`, its discriminants and its text.
use mathlib.Core.Option.{some-injective}
use wruster.Base.{
  sym, ap, ◌∙◌, equal_refl, ℕ, ◌+◌, ◌<◌, ◌≡◌, ◌↔◌, refl, Bool, true, Option, none, some, Bytes,
  arith, codes, equal, equal_iff, if◌then◌else◌,
}

pub data HttpMethod : Type 0 where
  get head post put delete connect options trace patch : HttpMethod

-- `method as usize`
abbrev pub discriminant : HttpMethod → ℕ
discriminant get = 0
discriminant head = 1
discriminant post = 2
discriminant put = 3
discriminant delete = 4
discriminant connect = 5
discriminant options = 6
discriminant trace = 7
discriminant patch = 8

abbrev pub get_last : HttpMethod
get_last = patch

unfoldable pub to_string : HttpMethod → Bytes
to_string connect = codes "CONNECT"
to_string delete = codes "DELETE"
to_string get = codes "GET"
to_string head = codes "HEAD"
to_string options = codes "OPTIONS"
to_string patch = codes "PATCH"
to_string post = codes "POST"
to_string put = codes "PUT"
to_string trace = codes "TRACE"

-- `none` is the error "invalid http method".
unfoldable pub from_str : Bytes → Option HttpMethod
from_str s =
    if equal s (codes "GET")
    then some get
    else if equal s (codes "HEAD")
    then some head
    else if equal s (codes "POST")
    then some post
    else if equal s (codes "PUT")
    then some put
    else if equal s (codes "DELETE")
    then some delete
    else if equal s (codes "CONNECT")
    then some connect
    else if equal s (codes "OPTIONS")
    then some options
    else if equal s (codes "TRACE")
    then some trace
    else if equal s (codes "PATCH")
    then some patch
    else none

-- `PartialEq` compares the texts.
unfoldable pub eq : HttpMethod → HttpMethod → Bool
unfolding to_string
eq a b = equal (to_string a) (to_string b)

-- Every method is read back from its own text.
pub from_str-to_string : (m : HttpMethod) → from_str (to_string m) ≡ some m
unfolding from_str to_string equal
from_str-to_string get = refl
from_str-to_string head = refl
from_str-to_string _ = refl

-- A text that reads as a method is that method's own text.
pub to_string_of_from_str : (s : Bytes) {m : HttpMethod} → from_str s ≡ some m → s ≡ to_string m
unfolding from_str to_string
to_string_of_from_str s e = ground (
  arith,
  equal_iff s (codes "GET"),
  equal_iff s (codes "HEAD"),
  equal_iff s (codes "POST"),
  equal_iff s (codes "PUT"),
  equal_iff s (codes "DELETE"),
  equal_iff s (codes "CONNECT"),
  equal_iff s (codes "OPTIONS"),
  equal_iff s (codes "TRACE"),
  equal_iff s (codes "PATCH"),
)

-- Reading a method succeeds on exactly the texts of the nine methods.
from_str_iff : (s : Bytes) (m : HttpMethod) → (from_str s ≡ some m) ↔ (s ≡ to_string m)
from_str_iff s m = (λ e. to_string_of_from_str s e, λ e. rw e (from_str-to_string m))

pub discriminant-injective : (a b : HttpMethod) → discriminant a ≡ discriminant b → a ≡ b
discriminant-injective a b e = ground arith

pub discriminant-le-last : (m : HttpMethod) → discriminant m < discriminant get_last + 1
discriminant-le-last get = omega arith
discriminant-le-last head = omega arith
discriminant-le-last _ = omega arith

-- Comparing methods by their texts tells exactly the equal ones.
eq_lem : (a b : HttpMethod) → (eq a b ≡ true) ↔ (a ≡ b)
unfolding eq
eq_lem a b = (
  λ h. some-injective _ _ (
      sym (from_str-to_string a)
      ∙ ap from_str ((equal_iff (to_string a) (to_string b)).0 h)
      ∙ from_str-to_string b),
  λ e. rw e (equal_refl (to_string b)),
)

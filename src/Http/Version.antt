-- ===== src/Http/Version.antt =====
-- wruster/src/http/version.rs: the versions of the protocol and their text.
use wruster.Base.{
  ◌≡◌, ◌↔◌, refl, Option, none, some, Bytes, arith, codes, equal, equal_iff, if◌then◌else◌,
}

pub data Version : Type 0 where
  http1_0 http1_1 http2 : Version

unfoldable pub to_string : Version → Bytes
to_string http1_0 = codes "HTTP/1.0"
to_string http1_1 = codes "HTTP/1.1"
to_string http2 = codes "HTTP/2"

-- `none` is the error that carries the text.
unfoldable pub from_str : Bytes → Option Version
from_str s =
    if equal s (codes "HTTP/1.0")
    then some http1_0
    else if equal s (codes "HTTP/1.1")
    then some http1_1
    else if equal s (codes "HTTP/2")
    then some http2
    else none

from_str-to_string : (v : Version) → from_str (to_string v) ≡ some v
unfolding from_str to_string equal
from_str-to_string http1_0 = refl
from_str-to_string _ = refl

to_string_of_from_str : (s : Bytes) (v : Version) → from_str s ≡ some v → s ≡ to_string v
unfolding from_str to_string
to_string_of_from_str s v e = ground (
  arith,
  equal_iff s (codes "HTTP/1.0"),
  equal_iff s (codes "HTTP/1.1"),
  equal_iff s (codes "HTTP/2"),
)

-- Reading a version succeeds on exactly the texts of the three versions.
from_str_iff_version : (s : Bytes) (v : Version) → (from_str s ≡ some v) ↔ (s ≡ to_string v)
from_str_iff_version s v = (to_string_of_from_str s v, λ e. rw e (from_str-to_string v))

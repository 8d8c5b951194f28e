-- ===== src/Http/Headers/Lookup.antt =====
-- The headers are a map from names to the values added under them, in order.
use wruster.Base.{
  ◌≡◌, refl, Option, none, some, List, [], ◌∷◌, ◌++◌, Bytes, equal, equal_iff, if◌then◌else◌, arith,
}
use wruster.Http.Header.{Header}
use wruster.Http.Headers.{Headers, push_value, add, get}

abbrev pub values_or_none : Option (List Bytes) → List Bytes
values_or_none none = []
values_or_none (some vs) = vs

get-push_value :
    (hs : Headers) (n v m : Bytes)
    → get (push_value hs n v) m
      ≡ (if equal n m then some (values_or_none (get hs n) ++ v ∷ []) else get hs m)
unfolding get push_value
get-push_value [] n v m = refl
get-push_value ((k, vs) ∷ hs) n v m =
    ground (arith, equal_iff k n, equal_iff n m, equal_iff k m, get-push_value hs n v m)

-- A header that is added stands behind the values that its name had; other names keep theirs.
pub get-add :
    (hs : Headers) (h : Header) (m : Bytes)
    → get (add hs h) m
      ≡ (if equal h.name m then some (values_or_none (get hs h.name) ++ h.value ∷ []) else get hs m)
unfolding add
get-add hs h m = get-push_value hs h.name h.value m

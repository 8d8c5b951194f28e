-- ===== src/Router/Normalize/Resolve.antt =====
-- An independent description of a normal path: the stack of its names, the last one on top.
use wruster.Base.{
  ◌≢◌, ◌||◌, Option, none, some, List, [], ◌∷◌, ◌++◌, Bytes, All, equal, codes, if◌then◌else◌,
}
use wruster.Router.Normalize.{sep}

-- A name: not empty, with no separator, and neither "." nor "..".
pub record IsName (s : Bytes) : Type 0 where
  pub ne_nil : s ≢ []
  pub no_sep : All (λ c. c ≢ sep) s
  pub ne_dot : s ≢ codes "."
  pub ne_dots : s ≢ codes ".."

abbrev pub drop_top : List Bytes → Option (List Bytes)
drop_top [] = none
drop_top (s ∷ st) = some st

-- One part of a path, read onto the stack.
unfoldable pub read_part : List Bytes → Bytes → Option (List Bytes)
read_part st s =
    if equal s [] || equal s (codes ".")
    then some st
    else if equal s (codes "..")
    then drop_top st
    else some (s ∷ st)

unfoldable pub resolve : List Bytes → List Bytes → Option (List Bytes)
resolve st [] = some st
resolve st (s ∷ ss) = elim (read_part st s) [ none ↦ none | some st' ↦ resolve st' ss ]

-- Each name behind a separator.
unfoldable pub joined : List Bytes → Bytes
joined [] = []
joined (s ∷ st) = joined st ++ (sep ∷ s)

-- The root alone is written "/".
unfoldable pub render : List Bytes → Bytes
render [] = sep ∷ []
render (s ∷ st) = joined (s ∷ st)

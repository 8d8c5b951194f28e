-- ===== src/Router/Normalize.antt =====
-- wruster/src/router/mod.rs: `Normalize for PathBuf`, with the operations of `std::path` on Unix
-- that it calls. A path is its bytes.
pub mod Resolve
pub mod Buffer
pub mod Laws
use wruster.Base.{
  ℕ, Bool, true, false, Option, none, some, List, [], ◌∷◌, ◌++◌, Bytes, ◌==◌, if◌then◌else◌, equal,
  reverse, codes,
}

pub data Component : Type 0 where
  prefix root_dir cur_dir parent_dir : Component
  normal : Bytes → Component

abbrev pub sep : ℕ
sep = b'/'

unfoldable pub has_root : Bytes → Bool
has_root [] = false
has_root (c ∷ cs) = c == sep

-- The parts of a path between separators; `cur` holds the bytes of the part that is being read.
unfoldable pub split : Bytes → Bytes → List Bytes
split cur [] = cur ∷ []
split cur (c ∷ cs) =
    let rest = split (if c == sep then [] else cur ++ c ∷ []) cs in
    if c == sep then cur ∷ rest else rest

-- Empty parts and "." are no components, after the first.
unfoldable pub part : Bytes → List Component
part s =
    if equal s []
    then []
    else if equal s (codes ".")
    then []
    else if equal s (codes "..")
    then parent_dir ∷ []
    else normal s ∷ []

unfoldable pub parts : List Bytes → List Component
parts [] = []
parts (s ∷ ss) = part s ++ parts ss

-- A relative path may begin with ".".
unfoldable pub relative_parts : List Bytes → List Component
relative_parts [] = []
relative_parts (s ∷ ss) = (if equal s (codes ".") then cur_dir ∷ [] else part s) ++ parts ss

unfoldable pub components : Bytes → List Component
components p = if has_root p then root_dir ∷ parts (split [] p) else relative_parts (split [] p)

unfoldable pub ends_with_sep : Bytes → Bool
ends_with_sep [] = false
ends_with_sep (c ∷ []) = c == sep
ends_with_sep (c ∷ d ∷ cs) = ends_with_sep (d ∷ cs)

-- `PathBuf::push`: an absolute path replaces the buffer.
unfoldable pub push : Bytes → Bytes → Bytes
push buf p =
    if has_root p
    then p
    else if equal buf []
    then p
    else if ends_with_sep buf
    then buf ++ p
    else buf ++ (sep ∷ p)

unfoldable pub drop_seps : Bytes → Bytes
drop_seps [] = []
drop_seps (c ∷ cs) = if c == sep then drop_seps cs else c ∷ cs

unfoldable pub drop_name : Bytes → Bytes
drop_name [] = []
drop_name (c ∷ cs) = if c == sep then c ∷ cs else drop_name cs

-- What is left in front of the last part, without the separators at its end.
unfoldable pub before_last : Bool → Bytes → Bytes
before_last root [] = if root then sep ∷ [] else []
before_last root (c ∷ cs) = reverse (c ∷ cs)

unfoldable pub parent_rev : Bool → Bytes → Option Bytes
parent_rev root [] = none
parent_rev root (c ∷ cs) = some (before_last root (drop_seps (drop_name (c ∷ cs))))

-- `Path::parent`, read from the end, for a path with no "." in it.
unfoldable pub parent : Bytes → Option Bytes
parent p = parent_rev (has_root p) (drop_seps (reverse p))

-- One round of the loop; `none` is the error "invalid path".
unfoldable pub normalize_component : Bytes → Component → Option Bytes
normalize_component normalized root_dir = some (push normalized (sep ∷ []))
normalize_component normalized prefix = some (push normalized (sep ∷ []))
normalize_component normalized cur_dir = some normalized
normalize_component normalized parent_dir = parent normalized
normalize_component normalized (normal dir) = some (push normalized dir)

unfoldable pub normalize_components : Bytes → List Component → Option Bytes
normalize_components normalized [] = some normalized
normalize_components normalized (c ∷ cs) = elim (normalize_component normalized c) [
  | none ↦ none
  | some next ↦ normalize_components next cs
]

unfoldable pub normalize : Bytes → Option Bytes
normalize p = if has_root p then normalize_components [] (components p) else none

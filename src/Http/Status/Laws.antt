-- ===== src/Http/Status/Laws.antt =====
-- The numbers of the status codes.
use wruster.Base.{ℕ, ◌≡◌, refl, List, [], ◌∷◌, All, arith}
use wruster.Http.Status.{
  StatusCode, extension_code, arms, first_arm, from_usize, to_usize, clone, continue,
}

to_usize-first_arm :
    (l : List (ℕ × StatusCode)) (code : ℕ)
    → All (λ a. to_usize a.1 ≡ a.0) l
    → to_usize (first_arm l code) ≡ code
unfolding first_arm
to_usize-first_arm [] code h = unfold to_usize in refl
to_usize-first_arm ((k, s) ∷ l) code h = ground (arith, to_usize-first_arm l code h.1)

arms-numbers : All (λ a. to_usize a.1 ≡ a.0) arms
unfolding arms to_usize
arms-numbers = omega arith

-- The status that a number is read as stands for that number, standard or not.
to_usize-from_usize : (code : ℕ) → to_usize (from_usize code) ≡ code
unfolding from_usize
to_usize-from_usize code = to_usize-first_arm arms code arms-numbers

-- A status is read back from its number, unless it is an extension code with the number of a
-- standard status.
from_usize-to_usize :
    (s : StatusCode)
    → ((code : ℕ) → s ≡ extension_code code → from_usize code ≡ extension_code code)
    → from_usize (to_usize s) ≡ s
unfolding from_usize to_usize
from_usize-to_usize (extension_code code) h = h code refl
from_usize-to_usize continue h = refl
from_usize-to_usize _ h = refl

-- A clone is the same status.
pub clone_lem : (s : StatusCode) → clone s ≡ s
unfolding clone
clone_lem continue = refl
clone_lem _ = refl

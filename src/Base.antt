-- ===== src/Base.antt =====
-- Names that every module shares: the libraries', passed on, and those of the modules below.
mod Tests
mod Lists
pub use Tests.*
pub use Lists.{
  length, get_elem?, set, take, drop, replicate, length-append, length-replicate, length-set,
  get_elem?-bound, get_elem?-set_self, get_elem?-set_ne, count-append, All, All-append, Bytes,
  IsByte, equal_iff, equal_refl,
}
unfoldable pub use Lists.{equal, count}
pub use Prim.Native.Nat.{ℕ, zero, suc, ◌+◌, ◌-◌, ◌*◌, ◌/◌, ◌%◌, ◌^◌, ◌≤◌, ◌<◌}
pub use mathlib.Core.Bool.{Bool, true, false, not, ◌&&◌, ◌||◌}
pub use mathlib.Core.List.{List, [], ◌∷◌, ◌++◌, map, reverse}
pub use mathlib.Core.Logic.{◌≢◌, ◌↔◌, ◌⊎◌, inl, inr}
pub use mathlib.Core.Option.{Option, none, some}
pub use mathlib.Core.Path.{◌≡◌, refl, sym, ap, ◌∙◌}
pub use native.Mathlib.Omega.{arith}
-- The code points of a literal: its bytes, where it is ASCII.
mod Text
pub mod Decimal
pub mod Utf8
pub use Text.{codes}
pub mod Schedule

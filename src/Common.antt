-- ===== src/Common.antt =====
-- The names that the other modules share: the libraries', passed on, and those of the children.
pub mod Tests
pub mod Lists
pub mod Bytes
pub mod Split
pub mod Slices
pub mod Rings
pub mod Decimal
pub mod Trim
pub mod Map
pub use Tests.{
  Bool-cases, Option-cases, if◌then◌else◌, ltb, leb, is_some, ltb→lt, lt→ltb, all_of, ◌>>=◌,
  if_cases,
}
pub use Lists.*
pub use Bytes.{
  Comparable, ◌==◌, nat_comparable, pair_comparable, text_comparable, Text, bytes, same_refl,
  nat_same,
}
unfoldable pub use Split.{cut}
pub use Split.{Lacks, Lacks-append, cut-append, cut-none, cut-some, cut-Lacks}
pub use Prim.Native.Nat.{ℕ, zero, suc, ◌+◌, ◌-◌, ◌*◌, ◌/◌, ◌%◌, ◌^◌, ◌≤◌, ◌<◌, min}
pub use mathlib.Core.Path.{◌≡◌, refl, sym, ap, ◌∙◌, subst}
pub use mathlib.Core.Logic.{◌≢◌, ◌↔◌, ◌⊎◌, inl, inr}
pub use mathlib.Core.Bool.{Bool, true, false, ◌&&◌, ◌||◌, not}
pub use mathlib.Core.Option.{Option, none, some}
pub use mathlib.Core.List.{List, [], ◌∷◌, ◌++◌, map}
pub use native.Mathlib.Omega.{arith}

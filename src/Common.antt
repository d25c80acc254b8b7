-- ===== src/Common.antt =====
-- The names that every part shares: the libraries', passed on, and those of the children: tests and
-- equality, lists, bits, maps.
pub mod Tests
pub mod Equality
pub mod Lists
pub mod Bits
pub mod Maps
pub mod Sets
pub mod Decimal
pub mod Results
pub mod Integers
pub mod Chunks
pub mod Bytes
pub use Tests.*
pub use Equality.{Eq, ◌==◌, nat_eq, list_eq, pair_eq, beq_refl}
unfoldable pub use Equality.{list_beq}
pub use Lists.*
pub use Prim.Native.Nat.{ℕ, zero, suc, ◌+◌, ◌-◌, ◌*◌, ◌/◌, ◌%◌, ◌^◌, ◌≤◌, ◌<◌}
pub use mathlib.Core.Path.{◌≡◌, refl, sym, ap, subst, ◌∙◌}
pub use mathlib.Core.Logic.{◌≢◌, ◌↔◌, ◌⊎◌, inl, inr}
pub use mathlib.Core.Bool.{Bool, true, false, not, ◌&&◌, ◌||◌}
pub use mathlib.Core.Option.{Option, none, some}
pub use mathlib.Core.List.{List, [], ◌∷◌, ◌++◌, map}
pub use native.Mathlib.Omega.{arith}

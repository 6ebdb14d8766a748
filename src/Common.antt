-- ===== src/Common.antt =====
-- The names that the modules of this library share: those of the libraries, passed on, and those
-- of the children below (tests on numbers, lists, integers, byte strings).
mod Tests
mod Lists
mod Perms
mod Int
mod Decimal
pub use Tests.*
pub use Lists.*
pub use Perms.*
unfoldable pub use Decimal.{print_int, print_ℕ, digits}
unfoldable pub use Decimal.{atoi}
pub use Decimal.{atoi-print_int, is_space}
pub use Int.*
pub use Prim.Native.Nat.{ℕ, zero, suc, ◌+◌, ◌-◌, ◌*◌, ◌/◌, ◌%◌, ◌^◌, ◌≤◌, ◌<◌}
pub use mathlib.Core.Path.{◌≡◌, refl, sym, ap, ap₂, ◌∙◌}
pub use mathlib.Core.Logic.{◌≢◌, ◌↔◌, ◌⊎◌, inl, inr}
pub use mathlib.Core.Bool.{Bool, true, false, ◌&&◌, ◌||◌, not}
pub use mathlib.Core.Option.{Option, none, some}
pub use mathlib.Core.List.{List, [], ◌∷◌, ◌++◌, map}
pub use native.Mathlib.Omega.{arith}

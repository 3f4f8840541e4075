-- ===== src/Base.antt =====
-- The names that the other modules share: the libraries', passed on, and those of the children.
mod Tests
mod Lists
mod ByteStrings
pub mod Dicts
mod Numerals
pub mod Effects
pub mod Options
pub mod Integers
pub use Tests.*
pub use Lists.*
unfoldable pub use ByteStrings.{bytes_eq, contains, starts_with}
pub use ByteStrings.{Bytes, Text, Among, codes, bytes_eq_iff, bytes_eq_refl, contains_iff}
pub use Prim.Native.Nat.{ℕ, zero, suc, ◌+◌, ◌-◌, ◌*◌, ◌/◌, ◌%◌, ◌^◌, ◌≤◌, ◌<◌}
pub use Prim.Native.String.{String}
pub use mathlib.Core.Path.{◌≡◌, refl, sym, ap, ◌∙◌}
pub use mathlib.Core.Logic.{◌≢◌, ◌↔◌, ◌⊎◌, inl, inr}
pub use mathlib.Core.Bool.{Bool, true, false, not, ◌&&◌, ◌||◌}
pub use mathlib.Core.Option.{Option, none, some}
pub use mathlib.Core.List.{List, [], ◌∷◌, ◌++◌, map}
pub use native.Mathlib.Omega.{arith}
unfoldable pub use Dicts.{get, put, set_default, remove}
pub use Dicts.{Dict, get-put, get-put_self}
unfoldable pub use Numerals.{decimal, shown, int_of}

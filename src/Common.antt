-- ===== src/Common.antt =====
-- The names that the other modules share: the library's, passed on, and those of the children.
mod Tests
mod Lists
mod Int
mod Strings
mod Sort
unfoldable pub use Tests.*
unfoldable pub use Lists.*
unfoldable pub use Int.*
unfoldable pub use Sort.*
unfoldable pub use Strings.*
pub use Prim.Native.Nat.{ℕ, zero, suc, ◌+◌, ◌-◌, ◌*◌, ◌/◌, ◌%◌, ◌^◌, ◌≤◌, ◌<◌, min}
pub use mathlib.Core.Path.{◌≡◌, refl, sym, ap, ◌∙◌, subst}
pub use mathlib.Core.Logic.{◌≢◌, ◌↔◌, ◌⊎◌, inl, inr}
pub use mathlib.Core.Bool.{Bool, true, false, not, ◌&&◌, ◌||◌}
pub use mathlib.Core.Option.{Option, none, some}
pub use mathlib.Core.List.{List, [], ◌∷◌, ◌++◌, map, append-nil, append_assoc}
pub use native.Mathlib.Omega.{arith}

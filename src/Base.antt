-- ===== src/Base.antt =====
-- The names that all parts share: the libraries', passed on, and those of the children.
mod Logic
mod Text
mod Errors
mod Lists
mod Options
pub mod Int
pub mod Dict
pub use Prim.Native.Nat.{ℕ, zero, suc, ◌+◌, ◌-◌, ◌/◌, ◌%◌, ◌≤◌, ◌<◌}
pub use mathlib.Core.Path.{◌≡◌, refl, sym, ap, ◌∙◌}
pub use mathlib.Core.Logic.{◌≢◌, ◌↔◌, ◌⊎◌, inl, inr}
pub use mathlib.Core.Bool.{Bool, true, false, not, ◌&&◌, ◌||◌}
pub use mathlib.Core.Option.{Option, none, some}
pub use mathlib.Core.List.{List, [], ◌∷◌, ◌++◌, map, append-nil, append_assoc}
pub use native.Mathlib.Omega.{arith}
pub use Logic.*
unfoldable pub use Text.*
pub use Errors.*
pub use Lists.*
pub use Options.*

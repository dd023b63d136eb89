-- ===== src/Prelude.antt =====
-- Shared names: those of the libraries that every component uses, and those of the children.
mod Tests
mod Lists
mod Slices
mod Results
mod BigEndian
pub mod Keyed
mod Equality
mod Minimum
mod Text
mod Int
mod Utf8
unfoldable pub use Tests.*
pub use Lists.*
pub use Slices.*
pub use Results.*
pub use Text.*
pub use Int.*
unfoldable pub use Utf8.*
unfoldable pub use Equality.*
unfoldable pub use Minimum.*
pub use BigEndian.*
pub use Prim.Native.Nat.{ℕ, zero, suc, ◌+◌, ◌-◌, ◌*◌, ◌/◌, ◌%◌, ◌^◌, ◌≤◌, ◌<◌, min, max}
pub use mathlib.Core.Path.{◌≡◌, refl, sym, ap, ap₂, ◌∙◌, subst}
pub use mathlib.Core.Logic.{◌≢◌, ◌↔◌, ◌⊎◌, inl, inr}
pub use mathlib.Core.Bool.{Bool, true, false, ◌&&◌, ◌||◌, not}
pub use mathlib.Core.Option.{Option, none, some}
pub use mathlib.Core.List.{List, [], ◌∷◌, ◌++◌, map}
pub use native.Mathlib.Omega.{arith}

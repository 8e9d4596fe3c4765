-- ===== src/Base.antt =====
-- The names that the other modules share: the libraries' names, passed on, and the shared types and
-- lemmas of the children. It models no file of the program by itself, except where a child says so.
mod Tests
mod Lists
mod Errors
mod Maps
mod Texts
mod Patterns
pub mod Values
pub use Tests.*
pub use Lists.*
unfoldable pub use Errors.*
unfoldable pub use Maps.*
unfoldable pub use Texts.*
unfoldable pub use Patterns.*
pub use Prim.Native.Nat.{ℕ, zero, suc, ◌+◌, ◌-◌, ◌*◌, ◌/◌, ◌%◌, ◌^◌, ◌≤◌, ◌<◌, min}
pub use Prim.Native.String.{String}
pub use mathlib.Core.Path.{◌≡◌, refl, sym, ap, ◌∙◌, subst}
pub use mathlib.Core.Logic.{◌≢◌, ◌↔◌, ◌⊎◌, inl, inr}
pub use mathlib.Core.Bool.{Bool, true, false, ◌&&◌, ◌||◌, not}
pub use mathlib.Core.Option.{Option, none, some}
pub use mathlib.Core.List.{List, [], ◌∷◌, ◌++◌, map}
pub use native.Mathlib.Omega.{arith}
pub use text.Mathlib.TextEquality.{eq_iff}

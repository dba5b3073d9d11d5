-- ===== src/Prelude.antt =====
-- The names that the other modules share: those of the libraries, passed on, and those of its
-- children. `HashSet` and `HashMap` stand for the collections of Rust's standard library that
-- the whole crate uses.
mod Tests
mod Errors
mod Sets
mod Maps
mod Loops
mod Text
mod Integers
pub mod Fuel
mod Sorting
mod Numbers
mod Entries
pub use Tests.*
pub use Errors.*
unfoldable pub use Sets.*
unfoldable pub use Maps.*
unfoldable pub use Loops.*
unfoldable pub use Text.*
unfoldable pub use Integers.*
unfoldable pub use Sorting.*
unfoldable pub use Numbers.*
pub use Entries.*
pub use Prim.Native.Nat.{ℕ, zero, suc, ◌+◌, ◌-◌, ◌≤◌, ◌<◌}
pub use Prim.Native.String.{String}
pub use mathlib.Core.Path.{◌≡◌, refl, sym, ap, subst, ◌∙◌}
pub use mathlib.Core.Logic.{◌≢◌, ◌↔◌, ◌⊎◌, inl, inr, ⊎_elim}
pub use mathlib.Core.Bool.{Bool, true, false, not, ◌&&◌, ◌||◌}
pub use mathlib.Core.Option.{Option, none, some}
pub use mathlib.Core.List.{List, [], ◌∷◌, ◌++◌, map}
pub use native.Mathlib.Omega.{arith}

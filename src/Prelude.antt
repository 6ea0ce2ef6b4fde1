-- ===== src/Prelude.antt =====
-- The names that the modules share: those of the libraries, passed on, and of the children.
mod Tests
mod Lists
mod Queries
mod Sorting
mod Pairwise
mod Int
mod Updates
pub use Tests.*
pub use Lists.*
unfoldable pub use Queries.*
pub use Pairwise.*
unfoldable pub use Sorting.*
unfoldable pub use Int.*
pub use Updates.*
pub use Prim.Native.Nat.{ℕ, zero, suc, ◌+◌, ◌-◌, ◌*◌, ◌/◌, ◌%◌, ◌^◌, ◌≤◌, ◌<◌, min, max}
pub use mathlib.Core.Path.{◌≡◌, refl, sym, ap, ◌∙◌, subst}
pub use mathlib.Core.Logic.{◌≢◌, ◌↔◌, ◌⊎◌, inl, inr}
pub use mathlib.Core.Bool.{Bool, true, false, not, ◌&&◌, ◌||◌}
pub use mathlib.Core.Option.{Option, none, some}
pub use mathlib.Core.List.{List, [], ◌∷◌, ◌++◌, map}
pub use native.Mathlib.Omega.{arith}

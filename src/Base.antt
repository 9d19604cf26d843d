-- ===== src/Base.antt =====
-- Names, types and lemmas that every component shares: the libraries' own, passed on, and those
-- of the children: Boolean tests and conditionals, Go strings, lists and sets, sorting, results.
mod Logic
mod Texts
mod Lists
mod Sorting
mod Results
mod Int
mod Subsequences
unfoldable pub use Logic.*
unfoldable pub use Texts.*
unfoldable pub use Lists.*
unfoldable pub use Sorting.*
unfoldable pub use Results.*
unfoldable pub use Int.*
unfoldable pub use Subsequences.*
pub use Prim.Native.Nat.{ℕ, zero, suc, ◌+◌, ◌-◌, ◌*◌, ◌/◌, ◌%◌, ◌^◌, ◌≤◌, ◌<◌}
pub use mathlib.Core.Path.{◌≡◌, refl, sym, ap, subst, ◌∙◌}
pub use mathlib.Core.Logic.{◌≢◌, ◌↔◌, ◌⊎◌, inl, inr}
pub use mathlib.Core.Bool.{Bool, true, false, not, ◌&&◌, ◌||◌}
pub use mathlib.Core.Option.{Option, none, some}
pub use mathlib.Core.List.{List, [], ◌∷◌, ◌++◌, map}
pub use native.Mathlib.Omega.{arith}

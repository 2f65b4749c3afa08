-- ===== src/Base.antt =====
-- The names that the other modules share: those of the libraries, and four children with tests, texts, sorting and
-- lists of rows.
mod Tests
mod Lists
mod Texts
mod Sort
pub use Tests.*
pub use Lists.*
pub use Texts.*
pub use Sort.*
unfoldable pub use Tests.{str_eq}
unfoldable pub use Texts.{is_space, lstrip, rstrip, strip, is_prefix, contains}
pub use Prim.Native.Nat.{ℕ, zero, suc, ◌+◌, ◌-◌, ◌*◌, ◌/◌, ◌%◌, ◌^◌, ◌≤◌, ◌<◌, min, max}
pub use Prim.Native.String.{String}
pub use mathlib.Core.Path.{◌≡◌, refl, sym, ap, ◌∙◌, subst}
pub use mathlib.Core.Logic.{◌≢◌, ◌↔◌, ◌⊎◌, inl, inr}
pub use mathlib.Core.Bool.{Bool, true, false, not, ◌&&◌, ◌||◌}
pub use mathlib.Core.Option.{Option, none, some}
pub use mathlib.Core.List.{List, [], ◌∷◌, ◌++◌, map}
pub use native.Mathlib.Omega.{arith}
unfoldable pub use native.Mathlib.Decide.{dec_lt, dec_le, ℕ_discrete}

-- ===== src/Base.antt =====
-- The names that the other modules share: those of the children, and the library's, passed on.
mod Tests
mod Lists
mod Strings
pub mod Dict
pub use Tests.*
pub use Lists.*
unfoldable pub use Lists.{filter}
pub use Strings.{
  Text, text, Key, text_key, nat_key, same, text_le_refl, text_le_total, text_le_antisymm,
  text_le_trans, eq_of_same, same_self,
}
unfoldable pub use Strings.{Text-discrete, text_le}
pub use Prim.Native.Nat.{ℕ, zero, suc, ◌+◌, ◌-◌, ◌*◌, ◌^◌, ◌≤◌, ◌<◌, min, max}
pub use mathlib.Core.Path.{◌≡◌, refl, sym, ap, ap₂, ◌∙◌, subst}
pub use mathlib.Core.Logic.{◌≢◌, ◌↔◌, ◌⊎◌, inl, inr}
pub use mathlib.Core.Bool.{Bool, true, false, not, ◌&&◌, ◌||◌}
pub use mathlib.Core.Option.{Option, none, some}
pub use mathlib.Core.List.{List, [], ◌∷◌, ◌++◌, map}
pub use native.Mathlib.Omega.{arith}
unfoldable pub use native.Mathlib.Decide.{ℕ_discrete}

-- ===== src/Prelude.antt =====
-- The names that the other modules share: the libraries', passed on, and those of the children.
mod Tests
mod Lists
mod Texts
mod Maps
pub mod Families
pub mod TextLaws
pub mod Utf
pub mod Int
pub use Tests.*
pub use Lists.*
unfoldable pub use Texts.{
  is_empty, same, has_prefix, contains, has_suffix, to_lower, trim_right, decimal,
}
pub use Texts.{Text, codes, ◌=ˢ◌, is_upper, is_lower, is_digit, is_alnum}
unfoldable pub use Maps.{Table, lookup, insert, remove}
pub use Maps.{lookup-insert, lookup-remove}
pub use Prim.Native.Nat.{ℕ, zero, suc, ◌+◌, ◌-◌, ◌*◌, ◌/◌, ◌%◌, ◌^◌, ◌≤◌, ◌<◌}
pub use Prim.Native.String.{String}
pub use mathlib.Core.Path.{◌≡◌, refl, sym, ap, ◌∙◌, subst}
pub use mathlib.Core.Logic.{◌≢◌, ◌↔◌, ◌⊎◌, inl, inr}
pub use mathlib.Core.Bool.{Bool, true, false, not, ◌&&◌, ◌||◌}
pub use mathlib.Core.Option.{Option, none, some}
pub use mathlib.Core.List.{List, [], ◌∷◌, ◌++◌, map}
pub use native.Mathlib.Omega.{arith}
pub use text.Mathlib.TextEquality.{eq_iff}

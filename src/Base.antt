-- ===== src/Base.antt =====
-- The names that the other modules share: the libraries', passed on, and those of the children.
mod Tests
mod Lists
mod Strings
mod Go
mod Maps
mod Decimal
mod Integers
pub use Tests.*
pub use Lists.*
pub use Strings.{
  Text, codes, text_eq_iff, text_eq_refl, text_eq-false, contains_iff, contains-false,
}
unfoldable pub use Strings.{text_eq, contains, join}
pub use Go.*
pub use Integers.{ℤ, pos, negsuc}
unfoldable pub use Decimal.{decimal}
unfoldable pub use Maps.{lookup, assign}
pub use Maps.{lookup-assign, lookup-assign_self, lookup-assign_ne}
pub use Prim.Native.Nat.{ℕ, zero, suc, ◌+◌, ◌-◌, ◌*◌, ◌/◌, ◌%◌, ◌^◌, ◌≤◌, ◌<◌}
pub use mathlib.Core.Path.{◌≡◌, refl, sym, ap, ◌∙◌, subst, fun_ext, ◌≡⟨◌⟩◌, ◌∎}
pub use mathlib.Core.Logic.{◌≢◌, ◌↔◌, ◌⊎◌, inl, inr}
pub use mathlib.Core.Bool.{Bool, true, false, not, ◌&&◌, ◌||◌}
pub use mathlib.Core.Option.{Option, none, some}
pub use mathlib.Core.List.{List, [], ◌∷◌, ◌++◌, map, append-nil, append_assoc}
pub use native.Mathlib.Omega.{arith}

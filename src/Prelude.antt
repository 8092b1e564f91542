-- ===== src/Prelude.antt =====
-- The names that the other modules share: the libraries', passed on, and those of the children.
mod Tests
mod Sets
pub use Prim.Native.Nat.{ℕ, zero, suc, ◌+◌, ◌-◌, ◌*◌, ◌≤◌, ◌<◌}
pub use Prim.Native.String.{String}
pub use mathlib.Core.Path.{◌≡◌, refl, sym, ap, subst, ◌∙◌}
pub use mathlib.Core.Logic.{◌≢◌, ◌↔◌, ◌⊎◌, inl, inr}
pub use mathlib.Core.Bool.{Bool, true, false, not, ◌&&◌, ◌||◌}
pub use mathlib.Core.Option.{Option, none, some}
pub use mathlib.Core.List.{List, [], ◌∷◌, ◌++◌, map}
pub use native.Mathlib.Omega.{arith}
pub use text.Mathlib.Text.{◌==◌}
pub use text.Mathlib.TextEquality.{eq_iff}
pub use Tests.{
  ltb, leb, nat_eq, if◌then◌else◌, Bool-cases, Option-cases, eq_refl, eq_of, ne_of, text_or,
  text_given, is_text, present, All, elem-All, length,
}
unfoldable pub use Tests.{elem}
pub use Sets.{
  Within, elem-here, elem-there, elem-tail, elem-nil, elem-append, elem-discard, elem-discard_ne,
  elem-discard_of_ne, elem-reverse, length-append, length-reverse, append-eq-nil,
}
unfoldable pub use Sets.{discard}

-- ===== src/Prelude.antt =====
-- The names that the other modules share: the libraries', passed on, and those of the children.
mod Tests
mod Int
mod Lists
mod Maps
mod Runes
pub use Tests.*
pub use Int.*
unfoldable pub use Lists.{any, every, keep, find}
pub use Lists.{
  length, drop, take, length-append, All, any-append, any-keep, any-map, find-append, All-mono,
  All-keep, All-append, All-reverse, Some, Some-behind, Some-keep, any-Some, Some-mono, every-All,
}
pub use Prim.Native.Nat.{ℕ, zero, suc, ◌+◌, ◌-◌, ◌*◌, ◌/◌, ◌%◌, ◌^◌, ◌≤◌, ◌<◌, min, max}
pub use Prim.Native.String.{String}
pub use mathlib.Core.Path.{◌≡◌, refl, sym, ap, ◌∙◌, subst}
pub use mathlib.Core.Logic.{◌≢◌, ◌↔◌, ◌⊎◌, inl, inr}
pub use mathlib.Core.Bool.{Bool, true, false, not, ◌&&◌, ◌||◌, false≢true}
pub use mathlib.Core.Option.{Option, none, some}
pub use mathlib.Core.List.{List, [], ◌∷◌, ◌++◌, map, reverse}
pub use native.Mathlib.Omega.{arith}
pub use text.Mathlib.Text.{◌==◌}
pub use text.Mathlib.TextEquality.{eq_iff}
pub use text.Mathlib.TextPositions.{eq_refl}
pub use Maps.{Dict, keys, get-put, get-remove, get-put_self, All-put, All-get, dict_laws}
unfoldable pub use Maps.{get, put, remove}
pub use Runes.{Text, runes, text_eq_iff}
unfoldable pub use Runes.{concat, text_eq, text_less}

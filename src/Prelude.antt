-- ===== src/Prelude.antt =====
-- The names that the other modules share: the libraries', passed on, and those of the children.
mod Tests
mod Lists
mod Texts
mod Int
pub mod Maps
pub use Tests.*
pub use Lists.{
  length, take, drop, length-drop, drop-snoc, drop-drop, drop-length-take, take-short, take-drop,
  select, find, update_where, count_where, length-append, length-snoc, length-update_where,
  length-take-le, contains, All, find-is_some, sort_by-contains, find-update_where, find-append,
  find-last, find-changed, find-update-last,
}
unfoldable pub use Lists.{sort_by}
pub use Texts.{Text, codes, lower, lower_code, text_eq, text_eq_iff, starts_with, is_space, text_in}
unfoldable pub use Texts.{occurs, lstrip, strip, split, show, strip_string}
pub use Int.*
pub use Prim.Native.Nat.{ℕ, zero, suc, ◌+◌, ◌-◌, ◌*◌, ◌/◌, ◌%◌, ◌≤◌, ◌<◌, min, max}
pub use Prim.Native.String.{String, ◌++◌ as string_append}
pub use mathlib.Core.Path.{◌≡◌, refl, sym, ap, subst, ◌∙◌}
pub use mathlib.Core.Logic.{◌≢◌, ◌↔◌, ◌⊎◌, inl, inr}
pub use mathlib.Core.Bool.{Bool, true, false, not, ◌&&◌, ◌||◌}
pub use mathlib.Core.Option.{Option, none, some}
pub use mathlib.Core.List.{List, [], ◌∷◌, ◌++◌, map}
pub use native.Mathlib.Omega.{arith}
pub use text.Mathlib.Text.{◌==◌ as str_eq}
pub use text.Mathlib.TextEquality.{eq_iff}

-- ===== src/Shared.antt =====
-- The names that all modules share: the libraries', passed on, and those of the children.
mod Tests
mod Lists
mod Rows
mod Text
mod Decimal
mod Int
mod Time
pub use Tests.*
pub use Lists.*
pub use Rows.*
unfoldable pub use Text.{is_space, is_blank, trim_space, lowers_to}
unfoldable pub use Decimal.{decimal, digits_value}
pub use Decimal.{is_digit, digits_value-decimal, digits_value-is_word}
pub use Text.{
  str_eq, str_eq_refl, trim_space_idem, is_empty, codes, text_append, is_word, is_word-trim_space,
}
pub use Int.*
unfoldable pub use Time.{text_before}
pub use Prim.Native.Nat.{ℕ, zero, suc, ◌+◌, ◌-◌, ◌*◌, ◌/◌, ◌%◌, ◌≤◌, ◌<◌}
pub use Prim.Native.String.{String}
pub use mathlib.Core.Path.{◌≡◌, refl, sym, ap, subst, ◌∙◌}
pub use mathlib.Core.Logic.{◌≢◌, ◌↔◌, ◌⊎◌, inl, inr}
pub use mathlib.Core.Bool.{Bool, true, false, not, ◌&&◌, ◌||◌}
pub use mathlib.Core.Option.{Option, none, some}
pub use mathlib.Core.List.{List, [], ◌∷◌, ◌++◌, map}
pub use text.Mathlib.TextEquality.{eq_iff}
pub use native.Mathlib.Omega.{arith}

-- ===== src/Prelude.antt =====
-- The names that every module shares: those of the libraries, passed on, and those of the children.
mod Tests
mod Lists
mod Maps
mod Decimal
mod Text
mod Digits
pub use Tests.*
pub use Lists.*
pub use Maps.*
unfoldable pub use Decimal.{decimal}
unfoldable pub use Digits.{read_digits}
pub use Digits.{read_digits-decimal, all_digits, all_digits-decimal, is_empty-decimal}
unfoldable pub use Text.{
  split_once, rsplit_once, trim_end, trim_matches, strip_prefix, replace_char, to_lower,
  eq_ignore_ascii_case,
}
pub use Text.{
  eq_ignore_ascii_case_self, strip_prefix-append, strip_prefix_sound, is_empty, contains_char,
  contains_char-append, split_once-append, split_once-none, rsplit_once-none, rsplit_once-append,
  split_once_sound, rsplit_once_sound, IsChar, split_once-at, rsplit_once-at, split_once-back,
  rsplit_once-back, contains_char-at, rsplit_once-behind,
}
pub use Prim.Native.Nat.{ℕ, zero, suc, ◌+◌, ◌-◌, ◌*◌, ◌/◌, ◌%◌, ◌^◌, ◌≤◌, ◌<◌}
pub use Prim.Native.String.{String}
pub use mathlib.Core.Path.{◌≡◌, refl, sym, ap, subst, ◌∙◌}
pub use mathlib.Core.Logic.{◌≢◌, ◌↔◌, ◌⊎◌, inl, inr}
pub use mathlib.Core.Bool.{Bool, true, false, not, ◌&&◌, ◌||◌}
pub use mathlib.Core.Option.{Option, none, some}
pub use mathlib.Core.List.{List, [], ◌∷◌, ◌++◌, map}
pub use native.Mathlib.Omega.{arith}
pub use text.Mathlib.Text.{◌==◌}
pub use text.Mathlib.TextEquality.{eq_iff}

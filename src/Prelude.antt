-- ===== src/Prelude.antt =====
-- Names shared by every module: the libraries' names passed on, and those of the children below.
mod Tests
mod Lists
pub mod Text
pub mod Int
pub use Tests.*
pub use Lists.*
pub use Text.{
  to_lower_idem, to_lower-nil, equal_fold_sound, has_prefix, prefixed, prefixed_cancel,
  has_prefix-prefixed, trim_prefix-prefixed, eq-prefixed, prefixed-apart, prefixed-ne,
  prefixed-ne_cons,
}
unfoldable pub use Text.{
  trim_right_slashes, all_chars, text_length, to_lower, equal_fold, trim_space, trim_prefix,
  truncated,
}
pub use Prim.Native.Nat.{ℕ, zero, suc, ◌+◌, ◌-◌, ◌*◌, ◌/◌, ◌%◌, ◌^◌, ◌≤◌, ◌<◌, min}
pub use Prim.Native.String.{String, ◌++◌ as ◌++ₛ◌}
pub use mathlib.Core.Path.{fun_ext, ◌≡◌, refl, sym, ap, ◌∙◌, subst}
pub use mathlib.Core.Logic.{◌≢◌, ◌↔◌, ◌⊎◌, inl, inr}
pub use mathlib.Core.Bool.{Bool, true, false, not, ◌&&◌, ◌||◌}
pub use mathlib.Core.Option.{Option, none, some}
pub use mathlib.Core.List.{List, [], ◌∷◌, ◌++◌, map}
pub use native.Mathlib.Omega.{arith}
pub use text.Mathlib.Text.{◌==◌}
pub use text.Mathlib.TextEquality.{eq_iff}
pub use text.Mathlib.TextPositions.{eq_refl}

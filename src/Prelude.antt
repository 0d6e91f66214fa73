-- ===== src/Prelude.antt =====
-- The names that the other modules share.
pub mod Tests
pub mod Texts
pub mod Lists
pub mod Spaces
pub use Prim.Native.Nat.{ℕ, zero, suc, ◌+◌, ◌-◌, ◌*◌, ◌/◌, ◌%◌, ◌^◌, ◌≤◌, ◌<◌}
pub use Prim.Native.String.{String}
pub use mathlib.Core.Path.{◌≡◌, refl, sym, ap, ◌∙◌, subst}
pub use mathlib.Core.Logic.{◌≢◌, ◌↔◌, ◌⊎◌, inl, inr}
pub use mathlib.Core.Bool.{Bool, true, false, ◌&&◌, ◌||◌, not}
pub use mathlib.Core.Option.{Option, none, some}
pub use mathlib.Core.List.{List, [], ◌∷◌, ◌++◌, map}
pub use native.Mathlib.Omega.{arith}
pub use Tests.{ltb, leb, ◌==◌, if◌then◌else◌, ==_iff, Bool-cases, Option-cases}
pub use Texts.{
  Bytes, Text, text, text_eq, text_eq_refl, text_eq_sound, text_eq_iff, text_eq_comm, text_eq_ne,
  has_prefix, text_lt, text_lt_irrefl, text_lt_trans, text_lt_total,
}
pub use Lists.{length, all, any, length-append, All, All-imp, All-append, all-imp, all-append}
unfoldable pub use Texts.{trim_space, to_upper}

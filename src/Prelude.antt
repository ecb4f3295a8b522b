-- ===== src/Prelude.antt =====
-- The names that the modules share: the libraries', passed on, and those of the children.
mod Tests
mod Lists
mod Arrays
mod Maps
mod Sorting
mod Selections
mod JsonValues
mod Results
mod Texts
mod Scalars
pub use Tests.*
pub use Lists.*
pub use Arrays.*
pub use Maps.*
pub use Sorting.*
pub use Selections.*
pub use JsonValues.*
pub use Scalars.*
pub use Results.*
pub use Texts.{
  units, length_chk, text_schema, utf16_length-bounds, text_schema-length_chk, utf16_length_pos,
}
unfoldable pub use Texts.{char_length, utf16_length}
pub use Prim.Native.Nat.{ℕ, zero, suc, ◌+◌, ◌-◌, ◌*◌, ◌/◌, ◌%◌, ◌^◌, ◌≤◌, ◌<◌, min}
pub use Prim.Native.String.{String}
pub use mathlib.Core.Path.{◌≡◌, refl, sym, ap, subst, ◌∙◌}
pub use mathlib.Core.Logic.{◌≢◌, ◌↔◌, ◌⊎◌, inl, inr}
pub use mathlib.Core.Bool.{Bool, true, false, not, ◌&&◌, ◌||◌}
pub use mathlib.Core.Option.{Option, none, some}
pub use mathlib.Core.List.{List, [], ◌∷◌, ◌++◌, map}
pub use native.Mathlib.Omega.{arith}
pub use text.Mathlib.Text.{◌==◌ as str_eq}
pub use text.Mathlib.TextEquality.{eq_iff as str_eq_iff}

-- ===== src/Base.antt =====
-- The names that the other modules share: the libraries', passed on, and those of the children.
mod Tests
mod Lists
mod Texts
mod Words
mod Unique
pub mod Decimal
pub mod HashMap
pub mod Bits
pub use Tests.*
pub use Lists.*
unfoldable pub use Unique.{push_unique, push_all}
unfoldable pub use Words.{slice, index}
pub use Unique.*
pub use Words.{
  u16_mod, u64_mod, add64, saturating_sub, be16, be32, from_be16, from_be32, copy_at,
  from_be16-be16, from_be32-be32, Run, done, panicked, stuck, ◌>>=◌, slice-done, slice-middle,
  length-slice, Returns, Returns-bind, Returns-done, Returns-slice, Returns-index,
}
unfoldable pub use Texts.{text, Text-discrete, Texts-discrete}
pub use Texts.{Text, text_eq, texts_eq}
pub use Prim.Native.Nat.{ℕ, zero, suc, ◌+◌, ◌-◌, ◌*◌, ◌/◌, ◌%◌, ◌^◌, ◌≤◌, ◌<◌, min, max, bit_xor}
pub use Prim.Native.String.{String}
pub use mathlib.Core.Path.{◌≡◌, refl, sym, ap, subst, ◌∙◌}
pub use mathlib.Core.Logic.{◌≢◌, ◌↔◌, ◌⊎◌, inl, inr}
pub use mathlib.Core.Bool.{Bool, true, false, not, ◌&&◌, ◌||◌}
pub use mathlib.Core.Option.{Option, none, some}
pub use mathlib.Core.List.{List, [], ◌∷◌, ◌++◌, map}
pub use native.Mathlib.Omega.{arith}
unfoldable pub use native.Mathlib.Decide.{ℕ_discrete}

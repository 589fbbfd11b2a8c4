-- ===== src/Common.antt =====
-- The names that the other modules share: the libraries', passed on, and those of the children.
mod Tests
mod Lists
mod Bytes
pub mod Int
pub mod Map
pub use Tests.*
pub use Int.{
  u32, FitsInt, to_int_fits, llabs_fits, ℤ, pos, negsuc, pos_part, neg_part, ltb_ℤ, leb_ℤ, int_eq,
  int_beq_iff, int_laws, ◌≤ℤ◌,
}
unfoldable pub use Int.{
  int_of_u32, int64_of_u64, to_int, to_unsigned, mul_int, ◌+ℤ◌, ◌-ℤ◌, abs, llabs, to_int64,
  nat_to_string, int_to_string,
}
pub use Bytes.{Text, codes, text_eq, text_beq_iff}
unfoldable pub use Bytes.{text_beq}
pub use Lists.{
  length, length-append, is_empty, In, In-append_left, In-append_right, In-append_split, All,
  All-at, All-mono, All-of_In,
}
unfoldable pub use Lists.{contains}
pub use Prim.Native.Nat.{ℕ, zero, suc, ◌+◌, ◌-◌, ◌*◌, ◌/◌, ◌%◌, ◌^◌, ◌≤◌, ◌<◌}
pub use mathlib.Core.Path.{◌≡◌, refl, sym, ap, ap₂, ◌∙◌, subst}
pub use mathlib.Core.Logic.{◌≢◌, ◌↔◌, ◌⊎◌, inl, inr}
pub use mathlib.Core.Bool.{Bool, true, false, not, ◌&&◌, ◌||◌}
pub use mathlib.Core.Option.{Option, none, some}
pub use mathlib.Core.List.{List, [], ◌∷◌, ◌++◌, map, reverse}
pub use native.Mathlib.Omega.{arith}

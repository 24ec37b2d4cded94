-- ===== src/Common.antt =====
-- The names that the other modules share: the libraries', passed on, and those of the children.
mod Tests
mod Lists
mod Bytes
mod Dict
mod Decimal
mod Split
pub use Tests.*
pub use Lists.*
pub use Prim.Native.Nat.{ℕ, zero, suc, ◌+◌, ◌-◌, ◌*◌, ◌/◌, ◌%◌, ◌^◌, ◌≤◌, ◌<◌}
pub use Prim.Native.String.{String}
unfoldable pub use Bytes.{text_eq, has_prefix, has_suffix, trim_prefix}
pub use Bytes.{Text, codes, text_eq_iff}
unfoldable pub use Decimal.{format_uint, parse_uint32}
pub use Decimal.{
  is_digit, all_digits, format_uint-all_digits, format_uint-ne-nil, parse_uint32-format_uint,
}
unfoldable pub use Split.{split, join}
pub use Split.{free, all_free, split-join}
unfoldable pub use Dict.{lookup, insert, delete}
pub use Dict.{
  Table, lookup-insert, lookup-delete, length-insert, insert-All, delete-All, lookup-All,
}
unfoldable pub use mathlib.Core.Path.{◌≡◌, refl, sym, ap, subst, ◌∙◌}
pub use mathlib.Core.Logic.{◌≢◌, ◌↔◌, ◌⊎◌, inl, inr}
pub use mathlib.Core.Bool.{Bool, true, false, not, ◌&&◌, ◌||◌}
pub use mathlib.Core.Option.{Option, none, some}
pub use mathlib.Core.List.{List, [], ◌∷◌, ◌++◌, map, append-nil, append_assoc}
pub use native.Mathlib.Omega.{arith}

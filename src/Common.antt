-- ===== src/Common.antt =====
-- The names that the modules share: the libraries', passed on, and those of the children.
mod Tests
mod Lists
mod Dict
mod Perms
mod Draws
mod Int
mod Hex
mod Decimal
mod Bytes
pub use Tests.*
pub use Lists.*
pub use Perms.*
pub use Draws.*
unfoldable pub use Dict.{lookup, insert, remove}
pub use Dict.{
  UniqueKeys, insert-UniqueKeys, insert-insert, insert_comm, lookup-insert, lookup-remove,
  dict_laws,
}
pub use Int.*
unfoldable pub use Hex.{hex, parse_hex}
pub use Hex.{parse_hex-hex}
unfoldable pub use Decimal.{decimal_ℕ, decimal}
pub use Decimal.{is_zero}
pub use Bytes.{IsByte, decode_hex-encode_hex, len-encode_hex}
unfoldable pub use Bytes.{decode_hex, encode_hex, trim_prefix, contains}
pub use Bytes.{trim_prefix-append}
pub use Prim.Native.Nat.{ℕ, zero, suc, ◌+◌, ◌-◌, ◌*◌, ◌/◌, ◌%◌, ◌^◌, ◌≤◌, ◌<◌}
pub use Prim.Native.String.{String}
pub use mathlib.Core.Path.{◌≡◌, refl, sym, ap, subst, ◌∙◌}
pub use mathlib.Core.Logic.{◌≢◌, ◌↔◌, ◌⊎◌, inl, inr}
pub use mathlib.Core.Bool.{Bool, true, false, not, ◌&&◌, ◌||◌}
pub use mathlib.Core.Option.{Option, none, some}
pub use mathlib.Core.List.{List, [], ◌∷◌, ◌++◌, map}
pub use native.Mathlib.Omega.{arith}
pub use text.Mathlib.Text.{◌==◌}
pub use text.Mathlib.TextEquality.{eq_iff}

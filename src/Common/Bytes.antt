-- ===== src/Common/Bytes.antt =====
-- encoding/hex and the string functions of the standard library that walk a text.
use Prim.Native.String.{String, [], ◌∷◌}
use Prim.Native.String
use Prim.Native.Nat.{ℕ, ◌<◌, ◌+◌, ◌*◌, ◌/◌, ◌%◌}
use mathlib.Core.Bool.{Bool}
use mathlib.Core.Option.{Option, none, some}
use mathlib.Core.Path.{◌≡◌, refl, ap, ◌∙◌}
use mathlib.Core.List.{List}
use text.Mathlib.Text.{starts_with, find?}
use bundle_broadcaster.Common.Tests.{if◌then◌else◌, is_some}
use text.Mathlib.TextPositions.{len-append, slice-append_right, starts_with-append}
use native.Mathlib.Omega.{arith}
use bundle_broadcaster.Common.Lists.{All, length}
use bundle_broadcaster.Common.Hex.{hex_value, hex_digit, hex_value-hex_digit, len-hex_digit}
use Prim.Native.String.len

-- `hex.DecodeString(s)`: two digits for a byte, an error for anything else.
unfoldable pub decode_hex : String → Option (List ℕ)
unfolding hex_value
decode_hex [] = some List.[]
decode_hex (c ∷ []) = none
decode_hex (c ∷ d ∷ s) = elim (hex_value c) [
  | none ↦ none
  | some high ↦ elim (hex_value d) [
    | none ↦ none
    | some low ↦ elim (decode_hex s) [
      | none ↦ none
      | some bytes ↦ some (List.◌∷◌ (high * 16 + low) bytes)
    ]
  ]
]

-- `hex.EncodeToString(bytes)`
unfoldable pub encode_hex : List ℕ → String
unfolding hex_digit
encode_hex List.[] = []
encode_hex (List.◌∷◌ b bytes) = hex_digit (b / 16) ∷ hex_digit (b % 16) ∷ encode_hex bytes

abbrev pub IsByte : ℕ → Type 0
IsByte b = b < 256

pub decode_hex-encode_hex :
    (bytes : List ℕ) → All IsByte bytes → decode_hex (encode_hex bytes) ≡ some bytes
unfolding decode_hex encode_hex
decode_hex-encode_hex List.[] none_left = refl
decode_hex-encode_hex (List.◌∷◌ b bytes) all =
    rw
      (
        hex_value-hex_digit (b / 16) (omega (arith, all.0)),
        hex_value-hex_digit (b % 16) (omega arith),
        decode_hex-encode_hex bytes all.1,
        decode_hex,
      )
      (ap (λ n. some (List.◌∷◌ n bytes)) (omega arith))

-- `strings.TrimPrefix(s, prefix)`
unfoldable pub trim_prefix : String → String → String
trim_prefix s prefix =
    if starts_with s prefix then String.slice s (String.len prefix) (String.len s) else s

pub trim_prefix-append : (p s : String) → trim_prefix (String.◌++◌ p s) p ≡ s
unfolding trim_prefix
trim_prefix-append p s = rw (starts_with-append p s, len-append p s) (slice-append_right p s)

-- `strings.Contains(s, sub)`
unfoldable pub contains : String → String → Bool
contains s sub = is_some (find? s sub)

decode_hex_test : decode_hex (trim_prefix "0xff0A" "0x") ≡ some (List.◌∷◌ 255 (List.◌∷◌ 10 List.[]))
unfolding decode_hex trim_prefix
decode_hex_test = refl

-- Two digits for a byte, each one byte of text.
pub len-encode_hex :
    (bytes : List ℕ) → All IsByte bytes → String.len (encode_hex bytes) ≡ 2 * length bytes
unfolding encode_hex
len-encode_hex List.[] none_left = refl
len-encode_hex (List.◌∷◌ b bytes) all =
    len.cons (hex_digit (b / 16)) (hex_digit (b % 16) ∷ encode_hex bytes)
    ∙ (let shorter = len.cons (hex_digit (b % 16)) (encode_hex bytes) in
        let high = len-hex_digit (b / 16) (omega (arith, all.0)) in
        let low = len-hex_digit (b % 16) (omega arith) in
        let rest = len-encode_hex bytes all.1 in rw (shorter, high, low, rest) (omega arith))

-- ===== src/Simulator/Amounts.antt =====
-- weiHexToEth of simulator.go.
use Prim.Native.String.{String, [], ◌∷◌}
use bundle_broadcaster.Common.{
  Option, none, some, ℤ, pos, negsuc, ℕ, zero, suc, ◌||◌, ◌==◌, if◌then◌else◌, parse_hex,
  trim_prefix,
}
use bundle_broadcaster.Transaction.{Ethereum}

abbrev negated : Option ℕ → Option ℤ
negated none = none
negated (some zero) = some (pos 0)
negated (some (suc n)) = some (negsuc n)

abbrev positive : Option ℕ → Option ℤ
positive none = none
positive (some n) = some (pos n)

-- `n.SetString(s, 16)`: a sign may go before the digits.
unfoldable pub set_string : String → Option ℤ
set_string [] = none
set_string (c ∷ s) =
    if (c ∷ "") == "-"
    then negated (parse_hex s)
    else if (c ∷ "") == "+"
    then positive (parse_hex s)
    else positive (parse_hex (c ∷ s))

-- `fmt.Sprintf("%.9f", eth)` for an amount of wei with a sign.
unfoldable pub format_amount : Ethereum → ℤ → String
format_amount eth (pos n) = eth.format_eth n
format_amount eth (negsuc n) = "-" ∷ eth.format_eth (suc n)

unfoldable pub wei_hex_to_eth : Ethereum → String → String
unfolding set_string format_amount
wei_hex_to_eth eth hex_wei =
    if (hex_wei == "") || (hex_wei == "0x0") || (hex_wei == "0x")
    then "0"
    else elim (set_string (trim_prefix hex_wei "0x")) [
      | none ↦ hex_wei
      | some n ↦ format_amount eth n
    ]

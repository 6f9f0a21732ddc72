-- ===== src/Simulator/Tenderly.antt =====
-- buildTenderlyURL of simulator.go.
use Prim.Native.String
use bundle_broadcaster.Common.{
  String, ℕ, Option, none, some, List, [], ◌∷◌, ◌&&◌, is_some, eqb, if◌then◌else◌, decode_hex,
  encode_hex, trim_prefix, decimal_ℕ,
}
use bundle_broadcaster.Transaction.{Transaction, Ethereum, dynamic_fee_tx_type, text_or}

abbrev number_or : Option ℕ → ℕ → ℕ
number_or none d = d
number_or (some n) d = n

-- The fee cap of a dynamic-fee transaction that has one, else the gas price; 0 for nil.
unfoldable pub shown_gas_price : Transaction → ℕ
shown_gas_price tx =
    number_or
      (if eqb tx.tx_type dynamic_fee_tx_type && is_some tx.gas_fee_cap
        then tx.gas_fee_cap
        else tx.gas_price)
      0

-- `encode` is the method Encode of url.Values, for the parameters in the order of their assignment.
module _ (eth : Ethereum) (encode : List (String × String) → String) where
  unfoldable pub tenderly_params : Transaction → String → ℕ → List (String × String)
  unfolding shown_gas_price
  tenderly_params tx from block_number =
      ("network", "1")
      ∷ ("from", from)
      ∷ ("to", text_or tx.to "0x0000000000000000000000000000000000000000")
      ∷ ("gas", decimal_ℕ tx.gas)
      ∷ ("gasPrice", decimal_ℕ (shown_gas_price tx))
      ∷ ("value", decimal_ℕ tx.value)
      ∷ ("rawFunctionInput", String.◌++◌ "0x" (encode_hex tx.call_data))
      ∷ ("block", decimal_ℕ block_number)
      ∷ []

  unfoldable pub build_tenderly_url : String → ℕ → String
  unfolding tenderly_params
  build_tenderly_url raw_hex block_number =
      elim (decode_hex (trim_prefix (trim_prefix raw_hex "0x") "0X")) [
        | none ↦ ""
        | some bytes ↦ elim (eth.unmarshal_binary bytes) [
          | none ↦ ""
          | some tx ↦ elim tx.from [
            | none ↦ ""
            | some from ↦
                String.◌++◌ "https://dashboard.tenderly.co/simulator/new?"
                  (encode (tenderly_params tx from block_number))
          ]
        ]
      ]

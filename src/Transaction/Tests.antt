-- ===== src/Transaction/Tests.antt =====
-- A transaction as both decoders of relay_client.go read it.
use bundle_broadcaster.Common.{
  true, false, is_some, ◌++◌, ◌⊎◌, ◌∷◌, [], ◌≡◌, refl, some, decode_hex, trim_prefix,
}
use bundle_broadcaster.Transaction.{
  Transaction, Ethereum, compute_last_tx_hash, tx_detail, decode_tx, decode_tx_details,
}
use bundle_broadcaster.Transaction.Hashes.{last_tx_hash_in_details}

abbrev tip : Transaction
tip = record {
  hash = "0xaa";
  from = some "0x11";
  to = some "0x22";
  nonce = 7;
  gas = 21000;
  gas_price = some 3;
  gas_fee_cap = some 3;
  gas_tip_cap = some 1;
  value = 5;
  call_data = [];
  tx_type = 0;
  chain_id = some 1;
}

abbrev geth : Ethereum
geth = record { unmarshal_binary = λ bytes. some tip; format_eth = λ wei. "0.1" }

tip_shown : decode_tx geth "0x02" ≡ some (tx_detail geth tip "0x11")
unfolding decode_tx decode_hex trim_prefix
tip_shown = refl

hash_test : compute_last_tx_hash geth ("0x01" ∷ "0x02" ∷ []) ≡ "0xaa"
unfolding compute_last_tx_hash decode_hex trim_prefix
hash_test = refl

last_tx_hash_in_details_example :
    (decode_tx_details geth ("0x01" ∷ "0x02" ∷ [])
      ≡ decode_tx_details geth ("0x01" ∷ []) ++ (tx_detail geth tip "0x11" ∷ []))
    × (((compute_last_tx_hash geth ("0x01" ∷ "0x02" ∷ []) ≡ (tx_detail geth tip "0x11").hash)
          × (is_some (decode_hex (trim_prefix "0x02" "0x")) ≡ true))
        ⊎ ((compute_last_tx_hash geth ("0x01" ∷ "0x02" ∷ []) ≡ "")
            × (is_some (decode_hex (trim_prefix "0x02" "0x")) ≡ false)))
last_tx_hash_in_details_example =
    last_tx_hash_in_details geth ("0x01" ∷ []) "0x02" (tx_detail geth tip "0x11") tip_shown

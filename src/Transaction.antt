-- ===== src/Transaction.antt =====
-- tracker.go (TxDetail) and relay_client.go (computeLastTxHash, decodeTxDetails, bigIntToEth): signed
-- transactions in human-readable form. go-ethereum and the decimal formatting of big.Float are the
-- fields of `Ethereum`.
pub mod Hashes
mod Tests
use Prim.Native.String
use bundle_broadcaster.Common.{
  ℕ, String, Option, none, some, List, [], ◌∷◌, decode_hex, encode_hex, trim_prefix, decimal_ℕ,
  if◌then◌else◌, eqb,
}

-- What the getters of a decoded types.Transaction return. A nil pointer is `none`, and so is the
-- sender if types.Sender fails.
pub record Transaction : Type 0 where
  pub hash : String
  pub from : Option String
  pub to : Option String
  pub nonce : ℕ  -- uint64
  pub gas : ℕ  -- uint64
  pub gas_price : Option ℕ
  pub gas_fee_cap : Option ℕ
  pub gas_tip_cap : Option ℕ
  pub value : ℕ
  pub call_data : List ℕ
  pub tx_type : ℕ  -- uint8
  pub chain_id : Option ℕ

-- `unmarshal_binary` is the method of types.Transaction, and `format_eth` prints a positive amount of
-- wei as ETH with nine decimals.
pub record Ethereum : Type 0 where
  pub unmarshal_binary : List ℕ → Option Transaction
  pub format_eth : ℕ → String

pub record TxDetail : Type 0 where
  pub hash : String
  pub from : String
  pub to : String
  pub nonce : ℕ
  pub gas : ℕ
  pub gas_price : String
  pub max_fee_per_gas : String
  pub max_priority_fee_per_gas : String
  pub value : String
  pub value_wei : String
  pub call_data : String
  pub tx_type : ℕ
  pub chain_id : String

-- types.DynamicFeeTxType
abbrev pub dynamic_fee_tx_type : ℕ
dynamic_fee_tx_type = 2

-- The text of a number that may be nil, and "" for nil.
unfoldable pub decimal_or_empty : Option ℕ → String
decimal_or_empty none = ""
decimal_or_empty (some n) = decimal_ℕ n

abbrev pub text_or : Option String → String → String
text_or none default = default
text_or (some s) default = s

-- `rawTxs[len(rawTxs)-1]`, if there is one.
unfoldable pub last_tx : List String → Option String
last_tx [] = none
last_tx (raw ∷ []) = some raw
last_tx (raw ∷ next ∷ rest) = last_tx (next ∷ rest)

module _ (eth : Ethereum) where
  -- A value of 0 has its own text. The caller's value is never nil.
  unfoldable pub big_int_to_eth : ℕ → String
  big_int_to_eth wei = if eqb wei 0 then "0.000000000" else eth.format_eth wei

  unfoldable pub compute_last_tx_hash : List String → String
  unfolding last_tx
  compute_last_tx_hash raw_txs = elim (last_tx raw_txs) [
    | none ↦ ""
    | some raw ↦ elim (decode_hex (trim_prefix raw "0x")) [
      | none ↦ ""
      | some bytes ↦ elim (eth.unmarshal_binary bytes) [ none ↦ "" | some tx ↦ tx.hash ]
    ]
  ]

  -- The body of the loop after the sender is known.
  unfoldable pub tx_detail : Transaction → String → TxDetail
  unfolding big_int_to_eth decimal_or_empty
  tx_detail tx from =
      let dynamic = eqb tx.tx_type dynamic_fee_tx_type in
      record {
        hash = tx.hash;
        from = from;
        to = text_or tx.to "";
        nonce = tx.nonce;
        gas = tx.gas;
        gas_price = if dynamic then "" else decimal_or_empty tx.gas_price;
        max_fee_per_gas = if dynamic then decimal_or_empty tx.gas_fee_cap else "";
        max_priority_fee_per_gas = if dynamic then decimal_or_empty tx.gas_tip_cap else "";
        value = big_int_to_eth tx.value;
        value_wei = decimal_ℕ tx.value;
        call_data = String.◌++◌ "0x" (encode_hex tx.call_data);
        tx_type = tx.tx_type;
        chain_id = decimal_or_empty tx.chain_id;
      }

  -- One round of the loop, `none` where it continues with the next transaction.
  unfoldable pub decode_tx : String → Option TxDetail
  decode_tx raw = elim (decode_hex (trim_prefix (trim_prefix raw "0x") "0X")) [
    | none ↦ none
    | some bytes ↦ elim (eth.unmarshal_binary bytes) [
      | none ↦ none
      | some tx ↦ elim tx.from [ none ↦ none | some from ↦ some (tx_detail tx from) ]
    ]
  ]

  unfoldable pub decode_tx_details : List String → List TxDetail
  unfolding decode_tx
  decode_tx_details [] = []
  decode_tx_details (raw ∷ rest) = elim (decode_tx raw) [
    | none ↦ decode_tx_details rest
    | some d ↦ d ∷ decode_tx_details rest
  ]

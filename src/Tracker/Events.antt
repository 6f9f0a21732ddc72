-- ===== src/Tracker/Events.antt =====
-- The messages of the tracker's channels.
use bundle_broadcaster.Common.{ℕ, String, List}
use bundle_broadcaster.Transaction.{TxDetail}

pub record HashEvent : Type 0 where
  pub bundle_id : String
  pub builder : String
  pub bundle_hash : String
  pub target_block : ℕ
  pub last_tx_hash : String
  pub transactions : List TxDetail

pub record SimEvent : Type 0 where
  pub bundle_id : String
  pub coinbase_diff_eth : String
  pub eth_to_builder_eth : String
  pub gas_fees_eth : String
  pub total_gas_used : ℕ
  pub bundle_gas_price : String
  pub state_block : ℕ

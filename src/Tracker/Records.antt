-- ===== src/Tracker/Records.antt =====
-- The records of tracker.go and its caches.
use bundle_broadcaster.Transaction.{TxDetail}
use bundle_broadcaster.Common.{none, some, Option, String, ℕ, List}
use bundle_broadcaster.Tracker.Events.{HashEvent, SimEvent}

pub record BundleRecord : Type 0 where
  pub bundle_id : String
  pub builder : String
  pub bundle_hash : String
  pub last_tx_hash : String
  pub target_block : ℕ
  pub timestamp : ℕ
  pub coinbase_diff_eth : String
  pub eth_to_builder_eth : String
  pub gas_fees_eth : String
  pub total_gas_used : ℕ
  pub bundle_gas_price : String
  pub sim_state_block : ℕ
  pub transactions : List TxDetail

pub record PendingEntry : Type 0 where
  pub bundle : BundleRecord
  pub received_at : ℕ

pub record SimCacheEntry : Type 0 where
  pub coinbase_diff_eth : String
  pub eth_to_builder_eth : String
  pub gas_fees_eth : String
  pub total_gas_used : ℕ
  pub bundle_gas_price : String
  pub state_block : ℕ
  pub received_at : ℕ

-- The six assignments that copy a simulation result into a record.
unfoldable pub enrich : SimCacheEntry → BundleRecord → BundleRecord
enrich sim r = record r {
  coinbase_diff_eth = sim.coinbase_diff_eth;
  eth_to_builder_eth = sim.eth_to_builder_eth;
  gas_fees_eth = sim.gas_fees_eth;
  total_gas_used = sim.total_gas_used;
  bundle_gas_price = sim.bundle_gas_price;
  sim_state_block = sim.state_block;
}

-- `if sim, ok := simCache[id]; ok { … }`
unfoldable pub enrich_if_cached : Option SimCacheEntry → BundleRecord → BundleRecord
unfolding enrich
enrich_if_cached none r = r
enrich_if_cached (some sim) r = enrich sim r

unfoldable pub new_record : HashEvent → ℕ → BundleRecord
new_record e now = record {
  bundle_id = e.bundle_id;
  builder = e.builder;
  bundle_hash = e.bundle_hash;
  last_tx_hash = e.last_tx_hash;
  target_block = e.target_block;
  timestamp = now;
  coinbase_diff_eth = "";
  eth_to_builder_eth = "";
  gas_fees_eth = "";
  total_gas_used = 0;
  bundle_gas_price = "";
  sim_state_block = 0;
  transactions = e.transactions;
}

unfoldable pub new_sim_entry : SimEvent → ℕ → SimCacheEntry
new_sim_entry e now = record {
  coinbase_diff_eth = e.coinbase_diff_eth;
  eth_to_builder_eth = e.eth_to_builder_eth;
  gas_fees_eth = e.gas_fees_eth;
  total_gas_used = e.total_gas_used;
  bundle_gas_price = e.bundle_gas_price;
  state_block = e.state_block;
  received_at = now;
}

-- ===== src/Bundle.antt =====
-- strategies/types.go and client/types.go: the message that a bot sends. An absent `*int` is `none`.
use bundle_broadcaster.Common.{ℕ, String, Bool, List, Option, ℤ}

pub record IncomingBundle : Type 0 where
  pub bundle_id : String
  pub strategy_type : String
  pub target_block : ℕ  -- uint64
  pub target_tx_hash : String
  pub raw_txs : List String
  pub min_timestamp : ℕ  -- uint64
  pub max_timestamp : ℕ  -- uint64
  pub reverting_tx_hashes : List String
  pub target_pools : List String
  pub refund_percent : Option ℤ
  pub refund_recipient : String
  pub refund_tx_hashes : List String
  pub delayed_refund : Bool
  pub refund_identity : String

-- A value under a string key of the payload, a `map[string]interface{}`.
pub data Value : Type 0 where
  text : String → Value
  number : ℕ → Value
  integer : ℤ → Value
  texts : List String → Value
  flag : Bool → Value

abbrev pub Params : Type 0
Params = List (String × Value)

-- What BuildRequest returns: a method and a payload, or an error.
pub data BuildResult : Type 0 where
  built : String → Params → BuildResult
  build_error : String → BuildResult

-- The interface RelayStrategy has one method.
abbrev pub RelayStrategy : Type 0
RelayStrategy = IncomingBundle → BuildResult

-- ===== src/Simulator/Run.antt =====
-- callBundle and SimulateAsync of simulator.go.
use bundle_broadcaster.Common.{
  String, ℕ, ℤ, Bool, Option, none, some, List, [], ◌∷◌, ◌++◌, ◌+◌, ◌-◌, ◌||◌, not, ◌==◌, eqb,
  if◌then◌else◌,
}
use bundle_broadcaster.Bundle.{IncomingBundle}
use bundle_broadcaster.Config.{resolved_simulate_url}
use bundle_broadcaster.Transaction.{Ethereum}
use bundle_broadcaster.Signer.{Crypto, Signer, sign_body}
use bundle_broadcaster.Tracker.Events.{SimEvent}
use bundle_broadcaster.Relays.Payload.{block_number}
use bundle_broadcaster.Relay.Client.{HttpRequest, limit_body}
use bundle_broadcaster.Manager.Build.{Simulator}
use bundle_broadcaster.Simulator.Amounts.{wei_hex_to_eth}
use bundle_broadcaster.Simulator.Tenderly.{build_tenderly_url}

pub record CallBundlePayload : Type 0 where
  pub txs : List String
  pub block_number : String
  pub state_block_number : String

pub record CallBundleTxResult : Type 0 where
  pub tx_hash : String
  pub gas_used : ℕ
  pub from_address : String
  pub to_address : String
  pub coinbase_diff : String
  pub eth_sent_to_coinbase : String
  pub error : String
  pub revert : String
  pub value : String

pub record CallBundleResult : Type 0 where
  pub bundle_hash : String
  pub bundle_gas_price : String
  pub coinbase_diff : String
  pub eth_sent_to_coinbase : String
  pub gas_fees : String
  pub total_gas_used : ℕ
  pub state_block_number : ℕ
  pub results : List CallBundleTxResult

pub record JsonRpcError : Type 0 where
  pub code : ℤ
  pub message : String

pub record CallBundleResponse : Type 0 where
  pub result : Option CallBundleResult
  pub error : Option JsonRpcError

-- What the code calls: encoding/json, http.NewRequest, the client (a body, or an error of the request
-- or of reading its answer), url.Values, the signer and go-ethereum.
pub record SimServices : Type 1 where
  pub encode : String → CallBundlePayload → Option String
  pub is_url : String → Bool
  pub do_request : HttpRequest → Option String
  pub unmarshal : String → Option CallBundleResponse
  pub encode_url : List (String × String) → String
  pub crypto : Crypto
  pub signer : Signer crypto
  pub eth : Ethereum

-- The entries of the log, with the index of a transaction and the links to Tenderly.
pub data SimEffect : Type 0 where
  request_failed : SimEffect
  rejected : ℤ → String → SimEffect
  empty_result : SimEffect
  tx_reverted : ℕ → CallBundleTxResult → SimEffect
  forwarded : SimEvent → SimEffect
  pays_zero : SimEvent → List (ℕ × String) → SimEffect
  valid : SimEvent → SimEffect

module _ (w : SimServices) (s : Simulator) (b : IncomingBundle) where
  unfoldable pub call_bundle_payload : CallBundlePayload
  call_bundle_payload = record {
    txs = b.raw_txs;
    block_number = block_number b;
    state_block_number = "latest";
  }

  unfoldable pub send_call : String → String → Option CallBundleResponse
  send_call body signature =
      let request : HttpRequest = record {
        url = resolved_simulate_url s.cfg;
        body = body;
        signature = signature;
      } in
      if w.is_url (resolved_simulate_url s.cfg)
      then elim (w.do_request request) [
        | none ↦ none
        | some answer ↦ w.unmarshal (limit_body answer)
      ]
      else none

  -- An error is `none`.
  unfoldable pub call_bundle : Option CallBundleResponse
  unfolding call_bundle_payload send_call
  call_bundle = elim (w.encode "eth_callBundle" call_bundle_payload) [
    | none ↦ none
    | some body ↦ elim (sign_body w.crypto w.signer body) [
      | none ↦ none
      | some signature ↦ send_call body signature
    ]
  ]

  -- The first transaction with an error, and its index.
  unfoldable pub find_reverted : ℕ → List CallBundleTxResult → Option (ℕ × CallBundleTxResult)
  find_reverted i [] = none
  find_reverted i (tx ∷ rest) =
      if not (tx.error == "") then some (i, tx) else find_reverted (i + 1) rest

  -- `targetBlock - 1` of a uint64.
  abbrev before_block : ℕ → ℕ
  before_block n = if eqb n 0 then 18446744073709551615 else n - 1

  unfoldable pub state_block : CallBundleResult → ℕ
  state_block r =
      if eqb r.state_block_number 0 then before_block b.target_block else r.state_block_number

  unfoldable pub sim_event_of : CallBundleResult → SimEvent
  unfolding state_block
  sim_event_of r = record {
    bundle_id = b.bundle_id;
    coinbase_diff_eth = wei_hex_to_eth w.eth r.coinbase_diff;
    eth_to_builder_eth = wei_hex_to_eth w.eth r.eth_sent_to_coinbase;
    gas_fees_eth = wei_hex_to_eth w.eth r.gas_fees;
    total_gas_used = r.total_gas_used;
    bundle_gas_price = r.bundle_gas_price;
    state_block = state_block r;
  }

  unfoldable pub tenderly_links : ℕ → ℕ → List String → List (ℕ × String)
  tenderly_links block i [] = []
  tenderly_links block i (raw ∷ rest) =
      let url = build_tenderly_url w.eth w.encode_url raw block in
      let links = tenderly_links block (i + 1) rest in
      if not (url == "") then (i, url) ∷ links else links

  unfoldable pub is_zero_payment : CallBundleResult → Bool
  is_zero_payment r =
      (r.eth_sent_to_coinbase == "")
      || (r.eth_sent_to_coinbase == "0x0")
      || (r.eth_sent_to_coinbase == "0")

  -- The code behind the loop over the results.
  unfoldable pub summarise : CallBundleResult → List SimEffect
  unfolding sim_event_of tenderly_links is_zero_payment
  summarise r =
      let e = sim_event_of r in
      (if s.tracked then forwarded e ∷ [] else [])
      ++ ((if is_zero_payment r
            then pays_zero e (tenderly_links (state_block r) 0 b.raw_txs)
            else valid e)
          ∷ [])

  unfoldable pub conclude_call : CallBundleResponse → List SimEffect
  unfolding find_reverted summarise
  conclude_call response = elim response.error [
    | some e ↦ rejected e.code e.message ∷ []
    | none ↦ elim response.result [
      | none ↦ empty_result ∷ []
      | some r ↦ elim (find_reverted 0 r.results) [
        | some (i, tx) ↦ tx_reverted i tx ∷ []
        | none ↦ summarise r
      ]
    ]
  ]

  unfoldable pub simulate_async : List SimEffect
  unfolding call_bundle conclude_call
  simulate_async = elim call_bundle [
    | none ↦ request_failed ∷ []
    | some response ↦ conclude_call response
  ]

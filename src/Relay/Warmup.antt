-- ===== src/Relay/Warmup.antt =====
-- WarmConnections of relay_client.go: requests sent ahead, and thrown away.
pub mod Count
use bundle_broadcaster.Config.{resolved_url}
use bundle_broadcaster.Common.{
  List, Option, String, ℕ, [], if◌then◌else◌, is_positive, ◌∷◌, some, to_ℕ, is_negative, none, zero,
  suc, ◌++◌,
}
use bundle_broadcaster.Relay.Client.{RelayClient, Effect, posted, Services}

abbrev pub warm_conn_per_relay : ℕ
warm_conn_per_relay = 100

-- `json.Marshal` of the request warmReqBody, which cannot fail.
abbrev warm_req_body : String
warm_req_body = "{\"jsonrpc\":\"2.0\",\"id\":0,\"method\":\"eth_blockNumber\",\"params\":[]}"

-- The number of goroutines, `none` if warmup is skipped.
unfoldable pub warm_count : RelayClient → Option ℕ
warm_count c =
    if is_positive c.relay.warmup_connections
    then some (to_ℕ c.relay.warmup_connections)
    else if is_negative c.relay.warmup_connections
    then none
    else some warm_conn_per_relay

-- A goroutine sends one unsigned request, if the URL makes one, and drops the answer.
unfoldable pub warm_once : Services → RelayClient → List Effect
warm_once w c =
    if w.is_url (resolved_url c.relay)
    then posted (record { url = resolved_url c.relay; body = warm_req_body; signature = "" }) ∷ []
    else []

unfoldable pub repeat_warm : Services → RelayClient → ℕ → List Effect
unfolding warm_once
repeat_warm w c zero = []
repeat_warm w c (suc n) = warm_once w c ++ repeat_warm w c n

unfoldable pub warm_connections : Services → RelayClient → List Effect
unfolding warm_count repeat_warm
warm_connections w c = elim (warm_count c) [ none ↦ [] | some n ↦ repeat_warm w c n ]

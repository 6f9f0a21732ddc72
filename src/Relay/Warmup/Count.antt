-- ===== src/Relay/Warmup/Count.antt =====
-- How many requests a warmup sends.
use bundle_broadcaster.Common.{
  ℕ, zero, suc, ℤ, pos, negsuc, true, false, List, [], ◌∷◌, ◌≡◌, refl, ap, replicate, Bool-cases,
  inl, inr, if◌then◌else◌, ◌∙◌, Option, none, some, is_positive, is_negative, to_ℕ, Option-cases,
  arith,
}
use bundle_broadcaster.Config.{resolved_url}
use bundle_broadcaster.Relay.Client.{RelayClient, HttpRequest, Effect, posted, Services}
use bundle_broadcaster.Relay.Warmup.{
  warm_conn_per_relay, warm_count, warm_once, repeat_warm, warm_connections,
}

-- The number of requests that a setting asks for.
abbrev pub asked : ℤ → ℕ
asked (pos zero) = 100
asked (pos (suc n)) = suc n
asked (negsuc n) = 0

abbrev pub warm_request : RelayClient → HttpRequest
warm_request c = record {
  url = resolved_url c.relay;
  body = "{\"jsonrpc\":\"2.0\",\"id\":0,\"method\":\"eth_blockNumber\",\"params\":[]}";
  signature = "";
}

repeat_warm_bad :
    (w : Services) (c : RelayClient) (n : ℕ)
    → w.is_url (resolved_url c.relay) ≡ false
    → repeat_warm w c n ≡ []
unfolding repeat_warm warm_once
repeat_warm_bad w c zero bad = refl
repeat_warm_bad w c (suc n) bad = rw bad (repeat_warm_bad w c n bad)

repeat_warm-replicate :
    (w : Services) (c : RelayClient) (n : ℕ)
    → w.is_url (resolved_url c.relay) ≡ true
    → repeat_warm w c n ≡ replicate n (posted (warm_request c))
unfolding repeat_warm warm_once
repeat_warm-replicate w c zero good = refl
repeat_warm-replicate w c (suc n) good =
    rw good (ap (◌∷◌ (posted (warm_request c))) (repeat_warm-replicate w c n good))

-- The number that the code takes from a setting.
abbrev counted : ℤ → Option ℕ
counted z =
    if is_positive z
    then some (to_ℕ z)
    else if is_negative z
    then none
    else some warm_conn_per_relay

abbrev warmed : Services → RelayClient → Option ℕ → List Effect
warmed w c none = []
warmed w c (some n) = repeat_warm w c n

counted-pos : (n : ℕ) → counted (pos (suc n)) ≡ some (suc n)
counted-pos n = ground arith

warmed-counted :
    (w : Services) (c : RelayClient) (z : ℤ) → warmed w c (counted z) ≡ repeat_warm w c (asked z)
unfolding repeat_warm
warmed-counted w c (pos zero) = refl
warmed-counted w c (pos (suc n)) = ap (warmed w c) (counted-pos n)
warmed-counted w c (negsuc n) = refl

warm_connections-warmed :
    (w : Services) (c : RelayClient)
    → warm_connections w c ≡ warmed w c (counted c.relay.warmup_connections)
unfolding warm_connections warm_count
warm_connections-warmed w c = elim (Option-cases (counted c.relay.warmup_connections)) [
  | inl skipped ↦ rw (skipped, warm_connections)
  | inr (n, e) ↦ rw (e, warm_connections)
]

-- A relay is warmed up by as many requests as its setting says, 100 for 0 and none for a negative
-- one, all for the block number and none of them signed; but by none if its URL makes no request.
pub warm_connections-replicate :
    (w : Services) (c : RelayClient)
    → warm_connections w c ≡ (
        if w.is_url (resolved_url c.relay)
        then replicate (asked c.relay.warmup_connections) (posted (warm_request c))
        else [])
warm_connections-replicate w c =
    warm_connections-warmed w c
    ∙ warmed-counted w c c.relay.warmup_connections
    ∙ elim (Bool-cases (w.is_url (resolved_url c.relay))) [
      | inl good ↦ rw good (repeat_warm-replicate w c _ good)
      | inr bad ↦ rw bad (repeat_warm_bad w c _ bad)
    ]

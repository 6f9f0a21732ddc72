-- ===== src/Relay/Client.antt =====
-- RelayClient and its method Broadcast.
pub mod Cooldown
pub mod Paths
pub mod Verdict
pub mod Recording
pub mod Outcomes
use Prim.Native.String
use bundle_broadcaster.Common.{
  ℕ, ◌+◌, ◌-◌, ◌*◌, ◌/◌, String, Bool, false, not, ◌&&◌, Option, none, some, List, [], ◌∷◌, ◌++◌,
  if◌then◌else◌, ◌==◌, eqb, ltb, leb, word, word_positive, is_positive, to_ℕ, replicate,
}
use bundle_broadcaster.Bundle.{IncomingBundle, Params, built, build_error, RelayStrategy}
use bundle_broadcaster.Config.{RelayConfig, resolved_url}
use bundle_broadcaster.Transaction.{Ethereum, compute_last_tx_hash, decode_tx_details}
use bundle_broadcaster.Signer.{Crypto, Signer, sign_body}
use bundle_broadcaster.Tracker.Events.{HashEvent}
use bundle_broadcaster.Relay.Transport.{Answer, response, failure, deliver}
use bundle_broadcaster.Relay.Response.{RawMessage, parse_bundle_hash}

-- `tracked` says whether the pointer to the tracker is set. `rate_limited_until` is an int64.
pub record RelayClient : Type 0 where
  pub relay : RelayConfig
  pub strategy : RelayStrategy
  pub tracked : Bool
  pub rate_limited_until : ℕ

unfoldable pub new_relay_client : RelayConfig → RelayStrategy → RelayClient
new_relay_client relay strategy = record {
  relay = relay;
  strategy = strategy;
  tracked = false;
  rate_limited_until = 0;
}

pub record HttpRequest : Type 0 where
  pub url : String
  pub body : String
  pub signature : String

-- What a call of Broadcast does to the world, in order: a counter goes up, a latency is observed, a
-- request is sent, or an event is handed to the tracker.
pub data Effect : Type 0 where
  sent failed rate_limited : String → Effect
  observed : String → ℕ → Effect
  posted : HttpRequest → Effect
  recorded : HashEvent → Effect
  panicked : Effect

-- What the code calls: encoding/json, strings.ToLower, http.NewRequest (does it take the URL?), the
-- signer and go-ethereum.
pub record Services : Type 1 where
  pub encode : String → Params → Option String
  pub to_lower : String → String
  pub is_url : String → Bool
  pub unmarshal : String → Option RawMessage
  pub crypto : Crypto
  pub signer : Signer crypto
  pub eth : Ethereum

-- The world during one call: the clock when it is read, in nanoseconds since 1970, and the answers
-- to the attempts.
pub record Call : Type 0 where
  pub now : ℕ
  pub start : ℕ
  pub finish : ℕ
  pub limited_at : ℕ
  pub do_request : ℕ → Answer

abbrev pub default_cooldown_ms : ℕ
default_cooldown_ms = 1000

unfoldable pub cooldown_ms : RelayClient → ℕ
cooldown_ms c =
    if is_positive c.relay.rate_limit_cooldown_ms
    then to_ℕ c.relay.rate_limit_cooldown_ms
    else default_cooldown_ms

-- `until > 0 && now < until`
unfoldable pub is_cooling : RelayClient → ℕ → Bool
is_cooling c now = word_positive c.rate_limited_until && ltb now c.rate_limited_until

-- `time.Now().Add(time.Duration(ms) * time.Millisecond).UnixNano()`
unfoldable pub cooldown_end : ℕ → ℕ → ℕ
cooldown_end now ms = word (now + word (ms * 1000000))

-- The first 64 KiB of a body; a character that does not fit goes, too.
unfoldable pub limit_body : String → String
limit_body body = String.slice body 0 65536

module _ (w : Services) (c : RelayClient) (b : IncomingBundle) where
  unfoldable pub hash_events : String → List Effect
  hash_events body =
      let hash = parse_bundle_hash w.unmarshal body in
      let event : HashEvent = record {
        bundle_id = b.bundle_id;
        builder = c.relay.name;
        bundle_hash = hash;
        target_block = b.target_block;
        last_tx_hash = compute_last_tx_hash w.eth b.raw_txs;
        transactions = decode_tx_details w.eth b.raw_txs;
      } in
      if c.tracked then if not (hash == "") then recorded event ∷ [] else [] else []

  -- The code behind the loop. Reading a nil response would panic.
  unfoldable pub conclude : ℕ → Option Answer → RelayClient × List Effect
  unfolding hash_events cooldown_ms
  conclude limited_at none = (c, panicked ∷ [])
  conclude limited_at (some (failure e)) = (c, failed c.relay.name ∷ [])
  conclude limited_at (some (response status body)) =
      if leb 200 status && ltb status 300
      then (c, sent c.relay.name ∷ hash_events (limit_body body))
      else if eqb status 429
      then (
        record c { rate_limited_until = cooldown_end limited_at (cooldown_ms c) },
        rate_limited c.relay.name ∷ [],
      )
      else (c, failed c.relay.name ∷ [])

  unfoldable pub exchange : Call → HttpRequest → RelayClient × List Effect
  unfolding conclude
  exchange call request =
      let (answer, made) = deliver w.to_lower call.do_request in
      let (c', effects) = conclude call.limited_at answer in
      (
        c',
        replicate made (posted request)
            ++ (observed c.relay.name ((call.finish - call.start) / 1000000) ∷ effects),
      )

  unfoldable pub send_body : Call → String → RelayClient × List Effect
  unfolding exchange
  send_body call body = elim (sign_body w.crypto w.signer body) [
    | none ↦ (c, failed c.relay.name ∷ [])
    | some signature ↦
        if w.is_url (resolved_url c.relay)
        then exchange call
            (record { url = resolved_url c.relay; body = body; signature = signature })
        else (c, failed c.relay.name ∷ [])
  ]

  -- Broadcast of a relay that is not cooling down.
  unfoldable pub send : Call → RelayClient × List Effect
  unfolding send_body
  send call = elim (c.strategy b) [
    | build_error e ↦ (c, failed c.relay.name ∷ [])
    | built method payload ↦ elim (w.encode method payload) [
      | none ↦ (c, failed c.relay.name ∷ [])
      | some body ↦ send_body call body
    ]
  ]

  unfoldable pub broadcast : Call → RelayClient × List Effect
  broadcast call = if is_cooling c call.now then (c, rate_limited c.relay.name ∷ []) else send call

-- ===== src/Relays/Builders.antt =====
-- strategies/relays: one BuildRequest for each block builder. None of them returns an error.
use bundle_broadcaster.Common.{String, List, [], ◌∷◌}
use bundle_broadcaster.Bundle.{texts, built, RelayStrategy}
use bundle_broadcaster.Relays.Payload.{
  ◌▷◌, base_payload, block_number, put_reverting_tx_hashes, put_min_timestamp, put_max_timestamp,
  put_refund_percent, put_refund_recipient, put_refund_tx_hashes, put_delayed_refund,
  put_refund_identity,
}
use bundle_broadcaster.Bundle.{text}

-- The builder names of the Flashbots request.
abbrev pub flashbots_builders : List String
flashbots_builders =
    "f1b.io" ∷ "rsync" ∷ "beaverbuild.org" ∷ "builder0x69" ∷ "Titan" ∷ "EigenPhi" ∷ "boba-builder"
    ∷ "Gambit Labs" ∷ "payload" ∷ "Loki" ∷ "BuildAI" ∷ "JetBuilder" ∷ "tbuilder" ∷ "penguinbuild"
    ∷ "bobthebuilder" ∷ "BTCS" ∷ "bloXroute" ∷ "Blockbeelder" ∷ "Quasar" ∷ "Eureka" ∷ []

unfoldable pub flashbots : RelayStrategy
flashbots b = built "eth_sendBundle" (
    ("txs", texts b.raw_txs)
    ∷ ("blockNumber", text (block_number b))
    ∷ ("builders", texts flashbots_builders)
    ∷ [])

unfoldable pub titanbuilder : RelayStrategy
titanbuilder b =
    built "eth_sendBundle" (base_payload b ▷ put_refund_percent b ▷ put_refund_recipient b)

unfoldable pub quasar : RelayStrategy
quasar b = built "eth_sendBundle" (
    base_payload b
    ▷ put_reverting_tx_hashes b
    ▷ put_min_timestamp b
    ▷ put_max_timestamp b
    ▷ put_refund_percent b
    ▷ put_refund_recipient b
    ▷ put_refund_tx_hashes b)

unfoldable pub beaverbuild : RelayStrategy
beaverbuild b = built "eth_sendBundle" (base_payload b)

unfoldable pub bobthebuilder : RelayStrategy
bobthebuilder b = built "eth_sendBundle" (base_payload b)

unfoldable pub buildernet : RelayStrategy
buildernet b = built "eth_sendBundle" (
    base_payload b
    ▷ put_reverting_tx_hashes b
    ▷ put_min_timestamp b
    ▷ put_max_timestamp b
    ▷ put_refund_percent b
    ▷ put_refund_recipient b
    ▷ put_refund_tx_hashes b
    ▷ put_delayed_refund b
    ▷ put_refund_identity b)

unfoldable pub eurekabuilder : RelayStrategy
eurekabuilder b =
    built "eth_sendBundle"
      (base_payload b ▷ put_reverting_tx_hashes b ▷ put_min_timestamp b ▷ put_max_timestamp b)

unfoldable pub rsyncbuilder : RelayStrategy
rsyncbuilder b = built "eth_sendBundle" (
    base_payload b
    ▷ put_reverting_tx_hashes b
    ▷ put_min_timestamp b
    ▷ put_max_timestamp b
    ▷ put_refund_percent b
    ▷ put_refund_recipient b
    ▷ put_refund_tx_hashes b)

unfoldable pub jetbldr : RelayStrategy
jetbldr b = built "eth_sendBundle" (
    base_payload b
    ▷ put_reverting_tx_hashes b
    ▷ put_min_timestamp b
    ▷ put_max_timestamp b
    ▷ put_refund_percent b
    ▷ put_refund_recipient b)

unfoldable pub tbuilder : RelayStrategy
tbuilder b = built "eth_sendBundle" (
    base_payload b
    ▷ put_reverting_tx_hashes b
    ▷ put_min_timestamp b
    ▷ put_max_timestamp b
    ▷ put_refund_percent b
    ▷ put_refund_recipient b)

unfoldable pub turbobuilder : RelayStrategy
turbobuilder b =
    built "eth_sendBundle"
      (base_payload b ▷ put_reverting_tx_hashes b ▷ put_min_timestamp b ▷ put_max_timestamp b)

unfoldable pub snailbuilder : RelayStrategy
snailbuilder b =
    built "eth_sendBundle"
      (base_payload b ▷ put_reverting_tx_hashes b ▷ put_min_timestamp b ▷ put_max_timestamp b)

unfoldable pub f1b : RelayStrategy
f1b b = built "eth_sendBundle" (base_payload b ▷ put_reverting_tx_hashes b)

unfoldable pub builder0x69 : RelayStrategy
builder0x69 b = built "eth_sendBundle" (base_payload b ▷ put_reverting_tx_hashes b)

unfoldable pub eigenphi : RelayStrategy
eigenphi b = built "eth_sendBundle" (base_payload b ▷ put_reverting_tx_hashes b)

unfoldable pub boba : RelayStrategy
boba b = built "eth_sendBundle" (base_payload b ▷ put_reverting_tx_hashes b)

unfoldable pub gambit : RelayStrategy
gambit b = built "eth_sendBundle" (base_payload b ▷ put_reverting_tx_hashes b)

unfoldable pub payload : RelayStrategy
payload b = built "eth_sendBundle" (base_payload b ▷ put_reverting_tx_hashes b)

unfoldable pub loki : RelayStrategy
loki b = built "eth_sendBundle" (base_payload b ▷ put_reverting_tx_hashes b)

unfoldable pub buildai : RelayStrategy
buildai b = built "eth_sendBundle" (base_payload b ▷ put_reverting_tx_hashes b)

unfoldable pub penguin : RelayStrategy
penguin b = built "eth_sendBundle" (base_payload b ▷ put_reverting_tx_hashes b)

unfoldable pub btcs : RelayStrategy
btcs b = built "eth_sendBundle" (base_payload b ▷ put_reverting_tx_hashes b)

unfoldable pub bloxroute : RelayStrategy
bloxroute b = built "eth_sendBundle" (base_payload b ▷ put_reverting_tx_hashes b)

unfoldable pub blockbeelder : RelayStrategy
blockbeelder b = built "eth_sendBundle" (base_payload b ▷ put_reverting_tx_hashes b)

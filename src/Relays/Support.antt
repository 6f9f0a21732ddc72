-- ===== src/Relays/Support.antt =====
-- Which optional fields each relay of strategies/relays is sent, as a table.
use bundle_broadcaster.Common.{
  is_some, String, Bool, true, false, not, ltb, nonempty, ◌≡◌, Option, none, some, List, [], ◌∷◌,
  lookup, if◌then◌else◌, ◌==◌, ◌||◌,
}
use bundle_broadcaster.Bundle.{
  IncomingBundle, Value, text, number, texts, flag, Params, BuildResult, built, build_error,
  RelayStrategy,
}
use bundle_broadcaster.Relays.Payload.{percent_value, block_number}
use bundle_broadcaster.Relays.Builders.{flashbots_builders}

-- The optional fields of a request.
pub data Field : Type 0 where
  builders reverting_tx_hashes min_timestamp max_timestamp refund_percent refund_recipient : Field
  refund_tx_hashes delayed_refund refund_identity : Field

abbrev pub key : Field → String
key builders = "builders"
key reverting_tx_hashes = "revertingTxHashes"
key min_timestamp = "minTimestamp"
key max_timestamp = "maxTimestamp"
key refund_percent = "refundPercent"
key refund_recipient = "refundRecipient"
key refund_tx_hashes = "refundTxHashes"
key delayed_refund = "delayedRefund"
key refund_identity = "refundIdentity"

abbrev given : Bool → Value → Option Value
given c v = if c then some v else none

-- What a bundle gives for a field. Its zero value counts as not given.
abbrev pub field_value : Field → IncomingBundle → Option Value
field_value builders b = some (texts flashbots_builders)
field_value reverting_tx_hashes b =
    given (nonempty b.reverting_tx_hashes) (texts b.reverting_tx_hashes)
field_value min_timestamp b = given (ltb 0 b.min_timestamp) (number b.min_timestamp)
field_value max_timestamp b = given (ltb 0 b.max_timestamp) (number b.max_timestamp)
field_value refund_percent b =
    if is_some b.refund_percent then percent_value b.refund_percent else none
field_value refund_recipient b = given (not (b.refund_recipient == "")) (text b.refund_recipient)
field_value refund_tx_hashes b = given (nonempty b.refund_tx_hashes) (texts b.refund_tx_hashes)
field_value delayed_refund b = given b.delayed_refund (flag true)
field_value refund_identity b = given (not (b.refund_identity == "")) (text b.refund_identity)

abbrev pub params_of : BuildResult → Params
params_of (built method params) = params
params_of (build_error e) = []

-- The columns of the table, each for the relays that share it.
abbrev pub Columns : Type 0
Columns = Field → Bool

abbrev pub plain : Columns
plain f = false

abbrev pub named : Columns
named builders = true
named f = false

abbrev pub reverting : Columns
reverting reverting_tx_hashes = true
reverting f = false

abbrev pub windowed : Columns
windowed min_timestamp = true
windowed max_timestamp = true
windowed f = reverting f

abbrev pub paid : Columns
paid refund_percent = true
paid refund_recipient = true
paid f = false

abbrev pub refunded : Columns
refunded f = windowed f || paid f

abbrev pub pinned : Columns
pinned refund_tx_hashes = true
pinned f = refunded f

abbrev pub full : Columns
full delayed_refund = true
full refund_identity = true
full f = pinned f

-- The request is an `eth_sendBundle` with the bundle's transactions and block, and holds an optional
-- field exactly where the columns have it and the bundle gives it.
pub record Sends (columns : Columns) (s : RelayStrategy) (b : IncomingBundle) : Type 0 where
  pub params : Params
  pub sent : s b ≡ built "eth_sendBundle" params
  pub txs : lookup "txs" params ≡ some (texts b.raw_txs)
  pub block : lookup "blockNumber" params ≡ some (text (block_number b))
  pub optional : (f : Field) → lookup (key f) params ≡ (if columns f then field_value f b else none)

-- The table of the relays.
abbrev pub support : List (String × Columns)
support =
    ("flashbots", named)
    ∷ ("titanbuilder", paid)
    ∷ ("quasar", pinned)
    ∷ ("bobthebuilder", plain)
    ∷ ("beaverbuild", plain)
    ∷ ("buildernet", full)
    ∷ ("eurekabuilder", windowed)
    ∷ ("rsyncbuilder", pinned)
    ∷ ("jetbldr", refunded)
    ∷ ("tbuilder", refunded)
    ∷ ("turbobuilder", windowed)
    ∷ ("snailbuilder", windowed)
    ∷ ("f1b", reverting)
    ∷ ("builder0x69", reverting)
    ∷ ("eigenphi", reverting)
    ∷ ("boba", reverting)
    ∷ ("gambit", reverting)
    ∷ ("payload", reverting)
    ∷ ("loki", reverting)
    ∷ ("buildai", reverting)
    ∷ ("penguin", reverting)
    ∷ ("btcs", reverting)
    ∷ ("bloxroute", reverting)
    ∷ ("blockbeelder", reverting)
    ∷ []

-- A relay is registered exactly if the table has a row for it, and the row says what it is sent.
abbrev pub Follows : Option Columns → Option RelayStrategy → Type 0
Follows none none = Unit
Follows none (some s) = ⊥
Follows (some columns) none = ⊥
Follows (some columns) (some s) = (b : IncomingBundle) → Sends columns s b

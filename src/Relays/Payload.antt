-- ===== src/Relays/Payload.antt =====
-- The statements that the BuildRequest methods of strategies/relays are made of.
use bundle_broadcaster.Common.{
  is_some, ◌&&◌, ℤ, String, Bool, true, ◌≡◌, arith, ltb, nonempty, Option, none, some, [], ◌∷◌,
  insert, lookup, hex, not, if◌then◌else◌, ◌==◌, lookup-insert,
}
use Prim.Native.String
use bundle_broadcaster.Bundle.{IncomingBundle, Value, text, number, integer, texts, flag, Params}

-- `fmt.Sprintf("0x%x", n)`
unfoldable pub block_number : IncomingBundle → String
block_number b = String.◌++◌ "0x" (hex b.target_block)

-- The statements run from left to right.
infixl 3 ◌▷◌
abbrev pub ◌▷◌ : Params → (Params → Params) → Params
p ▷ f = f p

-- `if c { params[key] = v }`
unfoldable pub put_if : Bool → String → Value → Params → Params
put_if c key v params = if c then insert key v params else params

unfoldable pub base_payload : IncomingBundle → Params
base_payload b = ("txs", texts b.raw_txs) ∷ ("blockNumber", text (block_number b)) ∷ []

abbrev pub put_reverting_tx_hashes : IncomingBundle → Params → Params
put_reverting_tx_hashes b =
    put_if (nonempty b.reverting_tx_hashes) "revertingTxHashes" (texts b.reverting_tx_hashes)

abbrev pub put_min_timestamp : IncomingBundle → Params → Params
put_min_timestamp b = put_if (ltb 0 b.min_timestamp) "minTimestamp" (number b.min_timestamp)

abbrev pub put_max_timestamp : IncomingBundle → Params → Params
put_max_timestamp b = put_if (ltb 0 b.max_timestamp) "maxTimestamp" (number b.max_timestamp)

unfoldable pub put_percent : Option ℤ → Params → Params
put_percent none params = params
put_percent (some n) params = insert "refundPercent" (integer n) params

abbrev pub put_refund_percent : IncomingBundle → Params → Params
put_refund_percent b = put_percent b.refund_percent

abbrev pub put_refund_recipient : IncomingBundle → Params → Params
put_refund_recipient b =
    put_if (not (b.refund_recipient == "")) "refundRecipient" (text b.refund_recipient)

abbrev pub put_refund_tx_hashes : IncomingBundle → Params → Params
put_refund_tx_hashes b =
    put_if (nonempty b.refund_tx_hashes) "refundTxHashes" (texts b.refund_tx_hashes)

abbrev pub put_delayed_refund : IncomingBundle → Params → Params
put_delayed_refund b = put_if b.delayed_refund "delayedRefund" (flag true)

abbrev pub put_refund_identity : IncomingBundle → Params → Params
put_refund_identity b =
    put_if (not (b.refund_identity == "")) "refundIdentity" (text b.refund_identity)

pub lookup-put_if :
    (c : Bool) (k j : String) (v : Value) (m : Params)
    → lookup j (put_if c k v m) ≡ (if (k == j) && c then some v else lookup j m)
unfolding put_if
lookup-put_if c k j v m = ground (arith, lookup-insert k j v m)

abbrev pub percent_value : Option ℤ → Option Value
percent_value none = none
percent_value (some n) = some (integer n)

pub lookup-put_percent :
    (p : Option ℤ) (j : String) (m : Params)
    → lookup j (put_percent p m)
      ≡ (if ("refundPercent" == j) && is_some p then percent_value p else lookup j m)
unfolding put_percent
lookup-put_percent none j m = ground arith
lookup-put_percent (some n) j m = ground (arith, lookup-insert "refundPercent" j (integer n) m)

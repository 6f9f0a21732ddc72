-- ===== src/Manager/Refund.antt =====
-- applyRefundDefaults: settings that stand in for what a bundle leaves out.
pub mod Priority
use bundle_broadcaster.Bundle.{IncomingBundle}
use bundle_broadcaster.Common.{Bool, Option, if◌then◌else◌, not, ◌&&◌, is_some, ◌==◌, nonempty}
use bundle_broadcaster.Config.{RefundConfig}

-- `p == nil`
abbrev pub is_none {ℓ} : {A : Type ℓ} → Option A → Bool
is_none p = not (is_some p)

-- No setting at all.
unfoldable pub is_unset : RefundConfig → Bool
is_unset r =
    is_none r.percent
    && (r.recipient == "")
    && not (nonempty r.tx_hashes)
    && not r.delayed_refund
    && (r.refund_identity == "")

-- The slow path: a copy of the bundle with the fields filled in one by one.
unfoldable pub fill_refund : RefundConfig → IncomingBundle → IncomingBundle
fill_refund r b = record b {
  refund_percent =
      if is_none b.refund_percent && is_some r.percent then r.percent else b.refund_percent;
  refund_recipient =
      if (b.refund_recipient == "") && not (r.recipient == "")
      then r.recipient
      else b.refund_recipient;
  refund_tx_hashes =
      if not (nonempty b.refund_tx_hashes) && nonempty r.tx_hashes
      then r.tx_hashes
      else b.refund_tx_hashes;
  delayed_refund =
      if not b.delayed_refund && r.delayed_refund then r.delayed_refund else b.delayed_refund;
  refund_identity =
      if (b.refund_identity == "") && not (r.refund_identity == "")
      then r.refund_identity
      else b.refund_identity;
}

unfoldable pub apply_refund_defaults : RefundConfig → IncomingBundle → IncomingBundle
unfolding is_unset fill_refund
apply_refund_defaults r b = if is_unset r then b else fill_refund r b

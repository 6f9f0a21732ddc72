-- ===== src/Manager/Build.antt =====
-- NewRelayManager: the clients of the configured relays.
pub mod Clients
use bundle_broadcaster.Bundle.{RelayStrategy}
use bundle_broadcaster.Config.{
  Config, RelayConfig, RefundConfig, TrackingConfig, SimulateConfig, is_tracked,
}
use bundle_broadcaster.Relays.Registry.{RelayBuilders, get_relay_builder}
use bundle_broadcaster.Common.{
  none, some, [], false, ◌∷◌, Bool, List, if◌then◌else◌, ◌&&◌, Option, nonempty,
}
use bundle_broadcaster.Relay.Client.{RelayClient, new_relay_client}

-- `simulator` and `tracker` say whether the pointers are set; both trackers are the one of the
-- manager.
pub record Simulator : Type 0 where
  pub cfg : SimulateConfig
  pub tracked : Bool

pub record RelayManager : Type 0 where
  pub clients : List RelayClient
  pub refund : RefundConfig
  pub simulator : Option Simulator
  pub tracker : Bool

-- `cfg.Tracking.Enabled && len(cfg.Tracking.Builders) > 0`
unfoldable pub has_tracker : TrackingConfig → Bool
has_tracker t = t.enabled && nonempty t.builders

-- A registered relay as a client, with the tracker where the relay is to be tracked.
unfoldable pub attach : TrackingConfig → RelayConfig → RelayStrategy → RelayClient
unfolding has_tracker
attach t relay builder = record (new_relay_client relay builder) {
  tracked = has_tracker t && is_tracked t relay.name;
}

-- The loop over the configured relays; one that is not registered is skipped.
unfoldable pub build_clients : RelayBuilders → TrackingConfig → List RelayConfig → List RelayClient
unfolding attach
build_clients builders t [] = []
build_clients builders t (relay ∷ relays) = elim (get_relay_builder relay.name builders) [
  | none ↦ build_clients builders t relays
  | some builder ↦ attach t relay builder ∷ build_clients builders t relays
]

unfoldable pub new_simulator : SimulateConfig → Simulator
new_simulator cfg = record { cfg = cfg; tracked = false }

unfoldable pub new_relay_manager : RelayBuilders → Config → RelayManager
unfolding build_clients has_tracker new_simulator
new_relay_manager builders cfg = record {
  clients = build_clients builders cfg.tracking cfg.relays;
  refund = cfg.refund;
  simulator =
      if cfg.simulate.enabled
      then some (record (new_simulator cfg.simulate) { tracked = has_tracker cfg.tracking })
      else none;
  tracker = has_tracker cfg.tracking;
}

-- ===== src/Manager/Build/Clients.antt =====
-- The clients of a manager are the registered relays of the configuration.
use bundle_broadcaster.Common.{
  Bool, List, [], ◌∷◌, ◌≡◌, ◌&&◌, some, keep, map, All, is_some, Option-cases, inl, inr, refl, ap,
}
use bundle_broadcaster.Config.{Config, RelayConfig, TrackingConfig, is_tracked}
use bundle_broadcaster.Relays.Registry.{RelayBuilders, get_relay_builder}
use bundle_broadcaster.Relay.Client.{RelayClient, new_relay_client}
use bundle_broadcaster.Manager.Build.{has_tracker, attach, build_clients, new_relay_manager}

abbrev pub is_registered : RelayBuilders → RelayConfig → Bool
is_registered builders relay = is_some (get_relay_builder relay.name builders)

-- The client sends by the registered strategy of its relay, is not cooling down, and has the tracker
-- exactly if there is one and its relay is to be tracked.
pub record IsBuilt (builders : RelayBuilders) (t : TrackingConfig) (c : RelayClient) : Type 1 where
  pub strategy : get_relay_builder c.relay.name builders ≡ some c.strategy
  pub fresh : c.rate_limited_until ≡ 0
  pub tracked : c.tracked ≡ (has_tracker t && is_tracked t c.relay.name)

module _ (builders : RelayBuilders) (t : TrackingConfig) where
  build_clients-relays :
      (relays : List RelayConfig)
      → map (λ c. c.relay) (build_clients builders t relays) ≡ keep (is_registered builders) relays
  unfolding build_clients attach new_relay_client
  build_clients-relays [] = refl
  build_clients-relays (relay ∷ relays) =
      elim (Option-cases (get_relay_builder relay.name builders)) [
        | inl missing ↦ rw (missing, build_clients) (build_clients-relays relays)
        | inr (s, found) ↦ rw (found, build_clients) (ap (◌∷◌ relay) (build_clients-relays relays))
      ]

  build_clients-IsBuilt :
      (relays : List RelayConfig) → All (IsBuilt builders t) (build_clients builders t relays)
  unfolding build_clients attach new_relay_client
  build_clients-IsBuilt [] = tt
  build_clients-IsBuilt (relay ∷ relays) =
      elim (Option-cases (get_relay_builder relay.name builders)) [
        | inl missing ↦ rw (missing, build_clients) (build_clients-IsBuilt relays)
        | inr (s, found) ↦
            rw (found, build_clients)
              (
                record { strategy = found; fresh = refl; tracked = refl },
                build_clients-IsBuilt relays,
              )
      ]

-- The clients are the configured relays that are registered, in order and once for each entry. Each
-- sends by the strategy registered under its relay's name, is not cooling down, and records hashes
-- exactly if tracking is enabled with a list of builders that has its name.
pub new_relay_manager-clients :
    (builders : RelayBuilders) (cfg : Config)
    → (map (λ c. c.relay) (new_relay_manager builders cfg).clients
        ≡ keep (is_registered builders) cfg.relays)
      × All (IsBuilt builders cfg.tracking) (new_relay_manager builders cfg).clients
unfolding new_relay_manager
new_relay_manager-clients builders cfg = (
  build_clients-relays builders cfg.tracking cfg.relays,
  build_clients-IsBuilt builders cfg.tracking cfg.relays,
)

-- ===== src/Manager/Tests.antt =====
-- The manager on a sample bundle and two clients.
use bundle_broadcaster.Common.{[], ◌∷◌, ◌≡◌, map, false, pos, keep, All, true}
use bundle_broadcaster.Samples.{bundle, refund, relay}
use bundle_broadcaster.Manager.Build.{new_relay_manager}
use bundle_broadcaster.Manager.Refund.{apply_refund_defaults}
use bundle_broadcaster.Manager.Refund.Priority.{merged, apply_refund_defaults-merged}
use bundle_broadcaster.Config.{Config}
use bundle_broadcaster.Manager.Build.Clients.{is_registered, IsBuilt, new_relay_manager-clients}
use bundle_broadcaster.Relays.Registry.{relay_builders}

apply_refund_defaults-merged_example : apply_refund_defaults refund bundle ≡ merged refund bundle
apply_refund_defaults-merged_example = apply_refund_defaults-merged refund bundle

abbrev config : Config
config = record {
  server = record { address = ""; port = pos 0 };
  auth = record { password_hash = ""; max_attempts = pos 0; lockout_minutes = pos 0 };
  private_key = "";
  log_level = "";
  relays = relay ∷ record relay { name = "unheard" } ∷ [];
  refund = refund;
  simulate = record { enabled = false; url = "" };
  tracking = record { enabled = true; dir = ""; builders = "quasar" ∷ [] };
}

new_relay_manager-clients_example :
    (map (λ c. c.relay) (new_relay_manager relay_builders config).clients
      ≡ keep (is_registered relay_builders) config.relays)
    × All (IsBuilt relay_builders config.tracking) (new_relay_manager relay_builders config).clients
new_relay_manager-clients_example = new_relay_manager-clients relay_builders config

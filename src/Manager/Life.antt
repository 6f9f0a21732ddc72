-- ===== src/Manager/Life.antt =====
-- WarmConnections and Shutdown of the manager.
use bundle_broadcaster.Common.{List, map, if◌then◌else◌}
use bundle_broadcaster.Relay.Client.{Effect, Services}
use bundle_broadcaster.Relay.Warmup.{warm_connections}
use bundle_broadcaster.Tracker.Process.{Process, signal_stop}
use bundle_broadcaster.Manager.Build.{RelayManager}

-- What the goroutines do, one for each client, in the order of the clients.
unfoldable pub warm_all : Services → RelayManager → List (List Effect)
warm_all w m = map (warm_connections w) m.clients

unfoldable pub shutdown : RelayManager → Process → Process
shutdown m p = if m.tracker then signal_stop p else p

-- ===== src/Manager/Fanout.antt =====
-- What RelayManager.Broadcast does before its goroutines run, and how it numbers them. The goroutines
-- themselves run in System/Interleaving.
use bundle_broadcaster.Bundle.{IncomingBundle}
use bundle_broadcaster.Relay.Client.{RelayClient}
use bundle_broadcaster.Manager.Build.{RelayManager}
use bundle_broadcaster.Common.{[], ◌∷◌, List, ℕ, ◌+◌, none, some, Option, if◌then◌else◌, is_some}
use bundle_broadcaster.Manager.Refund.{apply_refund_defaults}

-- What happens before the fan-out: the bundle that goes to the clients, and the one for SimulateAsync
-- if there is a simulator.
unfoldable pub prepare : RelayManager → IncomingBundle → IncomingBundle × Option IncomingBundle
prepare m bundle =
    let b = apply_refund_defaults m.refund bundle in
    (b, if is_some m.simulator then some b else none)

-- The loop over the clients, which System starts the goroutines by.
unfoldable pub number_from : ℕ → List RelayClient → List (ℕ × RelayClient)
number_from n [] = []
number_from n (c ∷ cs) = (n, c) ∷ number_from (n + 1) cs

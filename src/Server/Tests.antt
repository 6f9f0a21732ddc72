-- ===== src/Server/Tests.antt =====
-- The server on a sample bundle.
use bundle_broadcaster.Common.{[], ◌∷◌, ◌≡◌, ◌≢◌, refl, true}
use bundle_broadcaster.Samples.{bundle}
use bundle_broadcaster.Server.State.{WsServer, reading, start_server, receive, offer}
use bundle_broadcaster.Server.Steps.{
  connects, receives, offers, sets_closed, cancels, closes_queue, Steps, here, next, Reachable,
}
use bundle_broadcaster.Server.Balance.{Sound, Reachable-Sound, offered}
use bundle_broadcaster.Server.Panics.{losses_end, shutdown_may_lose}
use bundle_broadcaster.Server.Stopping.{Stopped, shutdown_completes}

abbrev connected : WsServer
connected = record start_server { handlers = reading ∷ [] }

-- A connection is about to send.
abbrev sending : WsServer
sending = receive connected [] [] bundle

abbrev queued : WsServer
queued = offer sending [] [] bundle

abbrev closing : WsServer
closing = record queued { closed = true }

abbrev cancelled : WsServer
cancelled = record closing { cancelled = true }

reaches_sending : Reachable sending
unfolding start_server receive
reaches_sending = next (next here (connects)) (receives [] [] bundle refl)

reaches_queued : Reachable queued
unfolding start_server receive offer
reaches_queued = next reaches_sending (offers [] [] bundle refl)

reaches_closing : Reachable closing
unfolding start_server receive offer
reaches_closing = next reaches_queued (sets_closed refl)

Reachable-Sound_example : Sound queued
Reachable-Sound_example = Reachable-Sound queued reaches_queued

shutdown_may_lose_example :
    (t : WsServer) × Steps sending t
    × (t.handlers ≡ [])
    × (t.lost ≡ bundle ∷ sending.lost)
    × (t.queue ≡ sending.queue)
    × (t.dropped ≡ sending.dropped)
unfolding start_server receive
shutdown_may_lose_example = shutdown_may_lose sending [] [] bundle refl refl refl refl

-- The queue is closed after `closed` was set with no connection about to send.
from_closing : Steps closing (record cancelled { queue_closed = true })
unfolding start_server receive offer
from_closing = next (next here (cancels refl refl)) (closes_queue refl refl)

losses_end_example :
    (closing.lost ≢ [] → (closing.queue_closed ≡ true) × (closing.closed ≡ true))
    × (closing.closed ≡ true
        → offered closing.handlers ≡ []
        → (record cancelled { queue_closed = true }).lost ≡ closing.lost)
losses_end_example =
    losses_end closing (record cancelled { queue_closed = true }) reaches_closing from_closing

-- With a bundle in the queue.
shutdown_completes_example : (t : WsServer) × Stopped cancelled t
unfolding start_server receive offer
shutdown_completes_example = shutdown_completes cancelled refl

-- ===== src/System/Tests.antt =====
-- One client, two bundles: the relay answers the first with a 429, and the second is skipped.
use bundle_broadcaster.Common.{
  ℕ, List, [], ◌∷◌, none, refl, true, replicate, length, ◌*◌, ◌≡◌, ◌+◌, ◌≤◌,
}
use bundle_broadcaster.Samples.{bundle, refund, client, services, call}
use bundle_broadcaster.Relay.Client.{is_cooling, send, cooldown_ms, cooldown_end, conclude}
use bundle_broadcaster.Manager.Build.{RelayManager}
use bundle_broadcaster.Server.State.{
  Worker, selecting, reading, start_server, receive, offer, take, worker_count, broadcasting,
}
use bundle_broadcaster.Server.Steps
use bundle_broadcaster.Manager.Fanout.{prepare}
use bundle_broadcaster.System.State.{
  Phase, waiting, checking, sending, answered, Job, ClientCall, System, move, after_move, start_job,
  start_system,
}
use bundle_broadcaster.System.Accounts.{counters_account, entries, unfinished, not_started}
use bundle_broadcaster.System.Load.{in_flight, in_flight_bounds}
use bundle_broadcaster.System.Skips.{Reasoned}
use bundle_broadcaster.System.Skips.Reasons.{Reachable-Reasoned}
use bundle_broadcaster.Relay.Transport.{deliver, attempts, is_final, is_retryable_conn_error}
use bundle_broadcaster.Counters.{
  bundle_received_total, bundle_sent_total, bundle_failed_total, bundle_rate_limited_total,
}
use bundle_broadcaster.Relays.Builders.{quasar}
use bundle_broadcaster.Signer.{sign_body}
use bundle_broadcaster.System.Interleaving.{serves, starts, moves, Reachable, started, later, busy}

abbrev pub manager : RelayManager
manager = record { clients = client ∷ []; refund = refund; simulator = none; tracker = true }

abbrev pub idle : List Worker
idle = replicate 63 selecting

abbrev pub call_in : Phase → ClientCall
call_in p = record { number = 0; client = client; phase = p }

abbrev pub job_in : List ClientCall → Job
job_in calls = record { origin = bundle; prepared = (prepare manager bundle).0; calls = calls }

-- A connection has read the bundle, and a worker has taken it.
abbrev pub connected : System
connected = record (start_system 5) { server = record start_server { handlers = reading ∷ [] } }

abbrev pub read_one : System → System
read_one s = record s { server = receive s.server [] [] bundle }

abbrev pub queue_one : System → System
queue_one s = record s { server = offer s.server [] [] bundle }

abbrev pub take_one : List Worker → List Worker → System → System
take_one before after s = record s {
  server = take s.server before after bundle [];
  jobs = job_in (call_in waiting ∷ []) ∷ s.jobs;
}

abbrev moved : Phase → ℕ → List Job → System → System
moved p now others s =
    after_move s [] (job_in (call_in p ∷ [])) others [] (call_in p) [] now
      (move services (prepare manager bundle).0 0 client p now call (s.cells 0))

abbrev pub taken : System
taken = take_one [] idle (queue_one (read_one connected))

pub reaches_taken : Reachable services manager 5 taken
unfolding start_system start_server receive offer take start_job
reaches_taken =
    later
      (later
        (later (later started (serves _ (Steps.connects) refl))
          (serves _ (Steps.receives [] [] bundle refl) refl))
        (serves _ (Steps.offers [] [] bundle refl) refl))
      (starts [] idle refl bundle [] refl)

abbrev limited_once : System
limited_once =
    moved (answered (record call { limited_at = 9 })) 10 []
      (moved sending 9 [] (moved (checking 0) 8 [] (moved waiting 7 [] taken)))

reaches_limited : Reachable services manager 5 limited_once
unfolding start_system start_server receive offer take start_job after_move move is_cooling
reaches_limited =
    later
      (later
        (later
          (later reaches_taken
            (moves [] [] (job_in (call_in waiting ∷ [])) refl [] [] (call_in waiting) refl 7 call))
          (moves [] [] (job_in (call_in (checking 0) ∷ [])) refl [] [] (call_in (checking 0)) refl 8
            call))
        (moves [] [] (job_in (call_in sending ∷ [])) refl [] [] (call_in sending) refl 9 call))
      (moves [] [] (job_in (call_in (answered (record call { limited_at = 9 })) ∷ [])) refl [] []
        (call_in (answered (record call { limited_at = 9 }))) refl 10 call)

abbrev pause_end : ℕ
pause_end = 1000000009

abbrev again : System
again =
    take_one (broadcasting bundle ∷ []) (replicate 62 selecting) (queue_one (read_one limited_once))

abbrev loaded_again : System
loaded_again = moved waiting 11 (job_in [] ∷ []) again

abbrev skipped_once : System
skipped_once = moved (checking pause_end) 12 (job_in [] ∷ []) loaded_again

reaches_again : Reachable services manager 5 again
unfolding start_system start_server receive offer take start_job after_move move is_cooling
reaches_again =
    later
      (later (later reaches_limited (serves _ (Steps.receives [] [] bundle refl) refl))
        (serves _ (Steps.offers [] [] bundle refl) refl))
      (starts (broadcasting bundle ∷ []) (replicate 62 selecting) refl bundle [] refl)

reaches_skipped : Reachable services manager 5 skipped_once
unfolding start_system start_server receive offer take start_job after_move move is_cooling send
    deliver cooldown_ms cooldown_end conclude quasar sign_body attempts is_final
    is_retryable_conn_error
reaches_skipped =
    later
      (later reaches_again (
        moves [] (job_in [] ∷ []) (job_in (call_in waiting ∷ [])) refl [] [] (call_in waiting) refl
          11 call))
      (moves [] (job_in [] ∷ []) (job_in (call_in (checking pause_end) ∷ [])) refl [] []
        (call_in (checking pause_end)) refl 12 call)

-- Both bundles are counted as rate-limited, one for the answer and one for the pause.
counters_account_example :
    bundle_received_total skipped_once.server * entries "quasar" manager.clients
    ≡ bundle_sent_total "quasar" skipped_once.effects
      + bundle_failed_total "quasar" skipped_once.effects
      + bundle_rate_limited_total "quasar" skipped_once.effects
      + unfinished "quasar" skipped_once.jobs
      + not_started skipped_once.server * entries "quasar" manager.clients
counters_account_example = counters_account services manager 5 skipped_once reaches_skipped "quasar"

in_flight_bounds_example :
    (length taken.jobs ≡ length (busy taken.server.workers))
    × (length taken.jobs ≤ worker_count)
    × (in_flight 0 taken.jobs ≤ worker_count)
in_flight_bounds_example = in_flight_bounds services manager 5 taken reaches_taken 0

Reachable-Reasoned_example : Reasoned services skipped_once.notices
Reachable-Reasoned_example = Reachable-Reasoned services manager 5 skipped_once reaches_skipped

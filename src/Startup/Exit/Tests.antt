-- ===== src/Startup/Exit/Tests.antt =====
-- A bundle whose hash reaches the tracker, a signal, and a shutdown that does not wait for its workers.
use mathlib.Core.List.{Memᴰ}
use bundle_broadcaster.Common.{Bool, [], ◌∷◌, ◌≡◌, true, false, refl, insert, lookup}
use bundle_broadcaster.Samples.{bundle, services}
use bundle_broadcaster.Manager.Life.{shutdown}
use bundle_broadcaster.Relay.Client.{is_cooling, send}
use bundle_broadcaster.Server.State.{start_server, receive, offer, take}
use bundle_broadcaster.Server.Steps
use bundle_broadcaster.Tracker.Records.{new_record, enrich_if_cached}
use bundle_broadcaster.Tracker.Loop.{start_state, on_received, on_hash}
use bundle_broadcaster.Tracker.Flush.{Tagged, entries}
use bundle_broadcaster.Tracker.Process.{Process, new_tracker, record_hash, takes_hash}
use bundle_broadcaster.Relay.Transport.{deliver, attempts, is_final}
use bundle_broadcaster.Relay.Response.{parse_bundle_hash}
use bundle_broadcaster.Relays.Builders.{quasar}
use bundle_broadcaster.Signer.{sign_body}
use bundle_broadcaster.System.State.{
  System, waiting, checking, sending, start_system, start_job, after_move, move,
}
use bundle_broadcaster.System.Interleaving
use bundle_broadcaster.System.Recording
use bundle_broadcaster.System.Tests.{manager, idle, call_in, job_in, taken}
use bundle_broadcaster.System.Recording.Tests.{
  disk, accepting, moved, sent_off, last_phase, last_move, recording, tracker, hash, taking,
  recorded_test,
}
use bundle_broadcaster.Startup.Exit.{
  MainPhase, serving, closing_manager, returning, is_running, MainState, server_of, Step, runs,
  gets_signal, times_out, closes_http, closes_manager, here, next, Reachable,
}
use bundle_broadcaster.Startup.Exit.Order.{After, AfterStop, main_stops_in_order}
use bundle_broadcaster.Startup.Exit.Losses.{exit_may_lose}

abbrev running : MainPhase → System → Process → MainState
running phase system p = record {
  phase = phase;
  recorder = record { system = system; tracker = p };
}

-- A step of the server with no effect that leaves it open.
quietly :
    {s t : System}
    → Reachable disk "tracking" services manager 5 (running serving s tracker)
    → Interleaving.Step services manager s t
    → t.effects ≡ s.effects
    → (t.server.closed ≡ s.server.closed)
      × (t.server.cancelled ≡ s.server.cancelled)
      × (t.server.queue_closed ≡ s.server.queue_closed)
    → Reachable disk "tracking" services manager 5 (running serving t tracker)
unfolding is_running
quietly {t = t} r step same open_yet =
    next r (runs _ refl (Recording.serves t step [] same) open_yet refl)

reaches_taken : Reachable disk "tracking" services manager 5 (running serving taken tracker)
unfolding start_system start_server receive offer take start_job
reaches_taken =
    let connects =
      quietly here (Interleaving.serves _ Steps.connects refl) refl (refl, refl, refl) in
    let receives =
      quietly connects (Interleaving.serves _ (Steps.receives [] [] bundle refl) refl) refl
        (refl, refl, refl) in
    let offers =
      quietly receives (Interleaving.serves _ (Steps.offers [] [] bundle refl) refl) refl
        (refl, refl, refl) in
    quietly offers (Interleaving.starts [] idle refl bundle [] refl) refl (refl, refl, refl)

reaches_sent_off : Reachable disk "tracking" services manager 5 (running serving sent_off tracker)
unfolding start_system start_server receive offer take start_job after_move move is_cooling
reaches_sent_off =
    let waits =
      quietly reaches_taken
        (Interleaving.moves [] [] (job_in (call_in waiting ∷ [])) refl [] [] (call_in waiting) refl
          7 accepting)
        refl (refl, refl, refl) in
    let checks =
      quietly waits
        (Interleaving.moves [] [] (job_in (call_in (checking 0) ∷ [])) refl [] []
          (call_in (checking 0)) refl 8 accepting)
        refl (refl, refl, refl) in
    quietly checks
      (Interleaving.moves [] [] (job_in (call_in sending ∷ [])) refl [] [] (call_in sending) refl 9
        accepting)
      refl (refl, refl, refl)

abbrev answered_one : System
answered_one = moved last_phase 10 sent_off

reaches_recording :
    Reachable disk "tracking" services manager 5 (running serving answered_one recording)
unfolding start_system start_server receive offer take start_job after_move is_cooling is_running
    move send quasar sign_body deliver attempts is_final parse_bundle_hash record_hash new_tracker
reaches_recording = next reaches_sent_off (
    runs _ refl
      (Recording.serves _
        (Interleaving.moves [] [] (job_in (call_in last_phase ∷ [])) refl [] [] (call_in last_phase)
          refl 10 accepting)
        last_move.effects refl)
      (refl, refl, refl) refl)

reaches_taking : Reachable disk "tracking" services manager 5 (running serving answered_one taking)
unfolding is_running move send quasar sign_body deliver attempts is_final parse_bundle_hash
    record_hash new_tracker
reaches_taking = next reaches_recording (
    runs _ refl (Recording.tracks taking (takes_hash refl hash [] recorded_test 1000 1001) tt)
      (refl, refl, refl) refl)

abbrev closed_one : Bool → Bool → Bool → System
closed_one a b c = record answered_one {
  server = record answered_one.server { closed = a; cancelled = b; queue_closed = c };
}

-- The tracker has a pending record when main is about to shut down the manager.
reaches_closing :
    Reachable disk "tracking" services manager 5
      (running (closing_manager false) (closed_one true true true) taking)
unfolding is_running start_system start_server receive offer take after_move
reaches_closing =
    let signalled = next reaches_taking (gets_signal refl) in
    let one = next signalled (
      runs _ refl (Recording.serves _ (Interleaving.serves _ (Steps.sets_closed refl) refl) [] refl)
        tt refl) in
    let two = next one (
      runs _ refl
        (Recording.serves _ (Interleaving.serves _ (Steps.cancels refl refl) refl) [] refl) tt
        refl) in
    let three = next two (
      runs _ refl
        (Recording.serves _ (Interleaving.serves _ (Steps.closes_queue refl refl) refl) [] refl) tt
        refl) in
    next (next three (times_out refl refl)) (closes_http false refl)

abbrev stopped : MainState
stopped = running (returning false) (closed_one true true true) (shutdown manager taking)

reaches_stopped : Reachable disk "tracking" services manager 5 stopped
reaches_stopped = next reaches_closing (closes_manager false refl)

main_stops_in_order_example :
    After
      (λ clean.
        ((server_of stopped).queue_closed ≡ true)
        × (clean ≡ true → stopped.recorder.system.jobs ≡ []))
      (returning false)
    × AfterStop manager stopped (returning false)
main_stops_in_order_example = main_stops_in_order disk "tracking" services manager 5 reaches_stopped

-- The record of the answer, which is pending.
abbrev waiting_record : Tagged
waiting_record = record {
  bundle_id = "b1";
  builder = "quasar";
  entry = record { bundle = new_record hash 1000; received_at = 1001 };
}

is_pending : Memᴰ waiting_record (entries taking.state.pending)
unfolding move send quasar sign_body deliver attempts is_final parse_bundle_hash record_hash
    new_tracker on_received on_hash insert start_state lookup enrich_if_cached
is_pending = Memᴰ.head refl

exit_may_lose_example :
    (t : MainState) × Reachable disk "tracking" services manager 5 t
    × Memᴰ waiting_record (entries t.recorder.tracker.state.pending)
    × (t.recorder.tracker.state.lines ≡ taking.state.lines)
    × ((u : MainState) → ¬ Step disk "tracking" services manager t u)
exit_may_lose_example =
    exit_may_lose disk "tracking" services manager 5
      (running (closing_manager false) (closed_one true true true) taking) reaches_closing false
      refl waiting_record is_pending

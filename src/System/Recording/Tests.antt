-- ===== src/System/Recording/Tests.antt =====
-- One bundle, which its relay accepts, with a line in the relay's file.
use mathlib.Core.List.Permᴰ
use Prim.Native.String
use bundle_broadcaster.Common.{
  ℕ, [], ◌∷◌, refl, All, ◌≡◌, some, none, true, decode_hex, trim_prefix, insert, lookup,
}
use bundle_broadcaster.Samples.{bundle, client, services, call}
use bundle_broadcaster.Relay.Transport.{response, deliver, attempts, is_final}
use bundle_broadcaster.Relay.Response.{parse_bundle_hash}
use bundle_broadcaster.Relays.Builders.{quasar}
use bundle_broadcaster.Signer.{sign_body}
use bundle_broadcaster.Manager.Fanout.{prepare}
use bundle_broadcaster.Manager.Refund.{apply_refund_defaults}
use bundle_broadcaster.Transaction.{compute_last_tx_hash, decode_tx_details}
use bundle_broadcaster.Relay.Client.{Call, is_cooling, send}
use bundle_broadcaster.Relay.Client.Recording.{recordings}
use bundle_broadcaster.Tracker.Events.{HashEvent}
use bundle_broadcaster.Tracker.Loop.{
  Disk, start_state, hash_event, ticked, on_received, flush, on_hash,
}
use bundle_broadcaster.Tracker.Process.{Process, new_tracker, record_hash, takes_hash, ticks}
use bundle_broadcaster.System.State.{
  Phase, waiting, checking, sending, answered, Moved, System, move, after_move, start_system,
  start_job,
}
use bundle_broadcaster.System.Interleaving
use bundle_broadcaster.Server.Steps
use bundle_broadcaster.Server.State.{start_server, receive, offer, take}
use bundle_broadcaster.System.Tests.{manager, idle, call_in, job_in, taken}
use bundle_broadcaster.System.Recording.{record_each, serves, tracks, Reachable, started, later}
use bundle_broadcaster.System.Recording.Lines.{HasAnswer, lines_have_answers}

abbrev pub disk : Disk
disk = record {
  join = λ dir name. String.◌++◌ dir (String.◌++◌ "/" name);
  make_dir = λ dir. true;
  can_open = λ n path. true;
  wrote = λ n builder line. none;
  marshal = λ r. some r.bundle_hash;
  order = λ n rs. rs;
  order-Perm = λ n rs. Permᴰ.refl rs;
}

-- The first answer is the hash.
abbrev pub accepting : Call
accepting = record call { do_request = λ attempt. response 200 "{}" }

abbrev pub moved : Phase → ℕ → System → System
moved p now s =
    after_move s [] (job_in (call_in p ∷ [])) [] [] (call_in p) [] now
      (move services (job_in []).prepared 0 client p now accepting (s.cells 0))

abbrev pub sent_off : System
sent_off = moved sending 9 (moved (checking 0) 8 (moved waiting 7 taken))

abbrev pub last_phase : Phase
last_phase = answered (record accepting { limited_at = 9 })

abbrev pub last_move : Moved
last_move = move services (job_in []).prepared 0 client last_phase 10 accepting (sent_off.cells 0)

abbrev pub recording : Process
recording = record_each (recordings last_move.effects) (new_tracker disk "tracking")

abbrev pub tracker : Process
tracker = new_tracker disk "tracking"

-- A step with no effect.
quietly :
    {s t : System}
    → Reachable disk "tracking" services manager 5 (record { system = s; tracker = tracker })
    → Interleaving.Step services manager s t
    → t.effects ≡ s.effects
    → Reachable disk "tracking" services manager 5 (record { system = t; tracker = tracker })
quietly {t = t} r step same = later r (serves t step [] same)

reaches_taken :
    Reachable disk "tracking" services manager 5 (record { system = taken; tracker = tracker })
unfolding start_system start_server receive offer take start_job
reaches_taken =
    let connects = quietly started (Interleaving.serves _ (Steps.connects) refl) refl in
    let receives =
      quietly connects (Interleaving.serves _ (Steps.receives [] [] bundle refl) refl) refl in
    let offers =
      quietly receives (Interleaving.serves _ (Steps.offers [] [] bundle refl) refl) refl in
    quietly offers (Interleaving.starts [] idle refl bundle [] refl) refl

reaches_sent_off :
    Reachable disk "tracking" services manager 5 (record { system = sent_off; tracker = tracker })
unfolding start_system start_server receive offer take start_job after_move move is_cooling
reaches_sent_off =
    let waits =
      quietly reaches_taken
        (Interleaving.moves [] [] (job_in (call_in waiting ∷ [])) refl [] [] (call_in waiting) refl
          7 accepting)
        refl in
    let checks =
      quietly waits
        (Interleaving.moves [] [] (job_in (call_in (checking 0) ∷ [])) refl [] []
          (call_in (checking 0)) refl 8 accepting)
        refl in
    quietly checks
      (Interleaving.moves [] [] (job_in (call_in sending ∷ [])) refl [] [] (call_in sending) refl 9
        accepting)
      refl

reaches_recording :
    Reachable disk "tracking" services manager 5
      (record { system = moved last_phase 10 sent_off; tracker = recording })
unfolding start_system start_server receive offer take start_job after_move move is_cooling
reaches_recording = later reaches_sent_off (
    serves _
      (Interleaving.moves [] [] (job_in (call_in last_phase ∷ [])) refl [] [] (call_in last_phase)
        refl 10 accepting)
      last_move.effects refl)

-- The goroutine receives the event, and ticks three seconds later.
abbrev pub hash : HashEvent
hash = record {
  bundle_id = "b1";
  builder = "quasar";
  bundle_hash = "0xbeef";
  target_block = 19000000;
  last_tx_hash = "";
  transactions = [];
}

abbrev pub taking : Process
taking = record recording {
  hash_ch = [];
  state = on_received disk "tracking" recording.state (hash_event hash 1000 1001);
}

abbrev writing : Process
writing = record taking {
  state = on_received disk "tracking" taking.state (ticked 3000000000 3000000001);
}

pub recorded_test : recording.hash_ch ≡ hash ∷ []
unfolding move send quasar sign_body deliver attempts is_final parse_bundle_hash record_hash
    new_tracker prepare compute_last_tx_hash decode_tx_details apply_refund_defaults decode_hex
    trim_prefix
recorded_test = refl

reaches_writing :
    Reachable disk "tracking" services manager 5
      (record { system = moved last_phase 10 sent_off; tracker = writing })
unfolding move send quasar sign_body deliver attempts is_final parse_bundle_hash record_hash
    new_tracker
reaches_writing =
    let takes =
      later reaches_recording
        (tracks taking (takes_hash refl hash [] recorded_test 1000 1001) tt) in
    later takes (tracks writing (ticks refl 3000000000 3000000001) tt)

written_test : writing.state.lines ≡ ("quasar", "0xbeef\n") ∷ []
unfolding move send quasar sign_body deliver attempts is_final parse_bundle_hash record_hash
    new_tracker on_received flush on_hash insert start_state lookup
written_test = refl

lines_have_answers_example :
    All
      (HasAnswer disk "tracking" services manager (moved last_phase 10 sent_off).notices)
      writing.state.lines
lines_have_answers_example = lines_have_answers disk "tracking" services manager reaches_writing

-- ===== src/Tracker/Tests.antt =====
-- The tracker on a simulation, a bundle hash of one builder, and a tick.
use mathlib.Core.List.{Permᴰ}
use mathlib.Core.List.Permᴰ
use Prim.Native.String
use bundle_broadcaster.Common.{
  Drawn, none, List, [], ◌∷◌, ◌≡◌, refl, map, some, ◌++◌, true, lookup, insert,
}
use bundle_broadcaster.Tracker.Events.{HashEvent, SimEvent}
use bundle_broadcaster.Tracker.Records.{new_record, enrich_if_cached, new_sim_entry, enrich}
use bundle_broadcaster.Tracker.Loop.{
  Disk, TrackerState, Received, hash_event, sim_event, ticked, start_state, run, flush, on_received,
  on_hash, on_sim, enrich_builders, write_records, write_record, get_file, write_line, is_open,
  kept_pending, kept_builders, flushed_pending, flushed_builders, is_waiting, evict, stop,
}
use bundle_broadcaster.Tracker.Process.{
  Process, new_tracker, record_hash, History, begins, goes_on, records_hash, takes_hash, stops,
  ends,
}
use bundle_broadcaster.Tracker.Fates.{Works, Done}
use bundle_broadcaster.Tracker.Fates.Draws.{Stems, traces}
use bundle_broadcaster.Tracker.Fates.Lines.{lines_have_events}
use bundle_broadcaster.Tracker.Fates.Received.{accepted, received}
use bundle_broadcaster.Tracker.Fates.Ending.{Each, received_hashes_end}
use bundle_broadcaster.Tracker.Shutdown.{stop_may_lose}
use bundle_broadcaster.Tracker.Order.Shuffles.{run-Shuffle, none_left}
use bundle_broadcaster.Tracker.Order.Shuffles
use bundle_broadcaster.Tracker.Invariant.{Inv, run-Inv}

abbrev disk : Disk
disk = record {
  join = λ dir name. String.◌++◌ dir (String.◌++◌ "/" name);
  make_dir = λ dir. true;
  can_open = λ n path. true;
  wrote = λ n builder line. none;
  marshal = λ r. some r.coinbase_diff_eth;
  order = λ n rs. rs;
  order-Perm = λ n rs. Permᴰ.refl rs;
}

abbrev hash : HashEvent
hash = record {
  bundle_id = "b1";
  builder = "quasar";
  bundle_hash = "0xbeef";
  target_block = 19000000;
  last_tx_hash = "";
  transactions = [];
}

abbrev simulation : SimEvent
simulation = record {
  bundle_id = "b1";
  coinbase_diff_eth = "0.01";
  eth_to_builder_eth = "0.01";
  gas_fees_eth = "0";
  total_gas_used = 21000;
  bundle_gas_price = "1";
  state_block = 18999999;
}

-- The hash comes first.
abbrev history : List Received
history = hash_event hash 1000 1001 ∷ sim_event simulation 1002 ∷ []

abbrev before_tick : TrackerState
before_tick = run disk "tracking" start_state history

-- The record is written with the simulation that came after it.
run_test :
    (run disk "tracking" start_state (
      hash_event hash 1000 1001
      ∷ sim_event simulation 1002
      ∷ ticked 3000000000 3000000001
      ∷ [])).lines
    ≡ ("quasar", "0.01\n") ∷ []
unfolding run start_state on_received on_hash new_record enrich_if_cached on_sim new_sim_entry
    enrich_builders enrich flush write_records write_record get_file write_line is_open kept_pending
    kept_builders flushed_pending flushed_builders is_waiting evict lookup insert
run_test = refl

run-Inv_example : Inv (run disk "tracking" start_state history)
run-Inv_example = run-Inv disk "tracking" history

-- One hash event waits in its channel.
abbrev waiting : Process
waiting = record_hash hash (new_tracker disk "tracking")

reach_waiting : History disk "tracking" waiting
reach_waiting = goes_on begins (records_hash hash)

stop_may_lose_example :
    (q : Process) × History disk "tracking" q
    × (q.has_ended ≡ true)
    × (q.hash_ch ≡ waiting.hash_ch)
    × (q.sim_ch ≡ waiting.sim_ch)
    × (q.state ≡ stop disk "tracking" 0 0 waiting.state)
unfolding new_tracker record_hash
stop_may_lose_example = stop_may_lose disk "tracking" waiting reach_waiting refl refl

-- The simulation comes first.
run-Shuffle_example :
    run disk "tracking" start_state (sim_event simulation 1002 ∷ hash_event hash 1000 1001 ∷ [])
    ≡ run disk "tracking" start_state history
run-Shuffle_example =
    run-Shuffle disk "tracking" start_state
      (Shuffles.takes_sim (simulation, 1002) (Shuffles.takes_hash (hash, 1000, 1001) none_left))

-- The hash event is received, then Stop is called and the goroutine ends.
unfoldable stopped : Process
unfolding stop
stopped = record waiting {
  hash_ch = [];
  is_done = true;
  state =
      stop disk "tracking" 5000 5001
        (on_received disk "tracking" start_state (hash_event hash 1000 1001));
  has_ended = true;
}

unfoldable reach_stopped : History disk "tracking" stopped
unfolding stopped new_tracker record_hash
reach_stopped =
    let took = goes_on reach_waiting (takes_hash refl hash [] refl 1000 1001) in
    goes_on (goes_on took (stops refl)) (ends refl refl 5000 5001)

disk_works : Works disk "tracking"
disk_works = record {
  opens = λ n builder. refl;
  writes = λ n builder line. refl;
  marshals = λ r. (r.coinbase_diff_eth, refl);
}

received_hashes_end_example :
    (accepted disk "tracking" reach_stopped
      ≡ map (λ r. r.0) (received disk "tracking" reach_stopped) ++ [])
    × Each (Done disk "tracking" stopped.state) (received disk "tracking" reach_stopped)
unfolding stopped
received_hashes_end_example = received_hashes_end disk "tracking" disk_works reach_stopped refl

lines_have_events_example :
    Drawn (Stems disk "tracking") (traces stopped.state) (received disk "tracking" reach_stopped)
lines_have_events_example = lines_have_events disk "tracking" reach_stopped

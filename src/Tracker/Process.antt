-- ===== src/Tracker/Process.antt =====
-- The channels of Tracker, its methods RecordHash, RecordSim and Stop, and the steps of its goroutine
-- between those of the callers.
use bundle_broadcaster.Common.{
  ℕ, Bool, true, false, String, List, [], ◌∷◌, ◌++◌, ◌≡◌, length, ltb, not, if◌then◌else◌,
}
use bundle_broadcaster.Tracker.Events.{HashEvent, SimEvent}
use bundle_broadcaster.Tracker.Loop.{
  Disk, TrackerState, start_state, hash_event, sim_event, ticked, on_received, stop,
}

abbrev pub channel_capacity : ℕ
channel_capacity = 1024

-- `is_done` is set once doneCh is closed, and `has_ended` once the goroutine has returned.
pub record Process : Type 0 where
  pub hash_ch : List HashEvent
  pub sim_ch : List SimEvent
  pub is_done : Bool
  pub state : TrackerState
  pub has_ended : Bool

-- A goroutine that cannot make its directory returns before it receives anything.
unfoldable pub new_tracker : Disk → String → Process
new_tracker disk dir = record {
  hash_ch = [];
  sim_ch = [];
  is_done = false;
  state = start_state;
  has_ended = not (disk.make_dir dir);
}

-- A send on a channel that has no room left drops the event.
unfoldable pub record_hash : HashEvent → Process → Process
record_hash e p =
    if ltb (length p.hash_ch) channel_capacity
    then record p { hash_ch = p.hash_ch ++ (e ∷ []) }
    else p

unfoldable pub record_sim : SimEvent → Process → Process
record_sim e p =
    if ltb (length p.sim_ch) channel_capacity then record p { sim_ch = p.sim_ch ++ (e ∷ []) } else p

-- Stop closes doneCh, and returns at once.
abbrev pub signal_stop : Process → Process
signal_stop p = record p { is_done = true }

module _ (disk : Disk) (dir : String) where
  -- The callers may record at any time; the goroutine receives from a channel that has something, or
  -- ends.
  pub data Event (p : Process) : Process → Type 0 where
    records_hash : (e : HashEvent) → Event p (record_hash e p)
    records_sim : (e : SimEvent) → Event p (record_sim e p)
    stops : p.is_done ≡ false → Event p (signal_stop p)
    takes_hash :
        p.has_ended ≡ false
        → (e : HashEvent) (rest : List HashEvent) → p.hash_ch ≡ e ∷ rest
        → (stamped received : ℕ)
        → Event p (record p {
          hash_ch = rest;
          state = on_received disk dir p.state (hash_event e stamped received);
        })
    takes_sim :
        p.has_ended ≡ false
        → (e : SimEvent) (rest : List SimEvent) → p.sim_ch ≡ e ∷ rest
        → (now : ℕ)
        → Event p
            (record p { sim_ch = rest; state = on_received disk dir p.state (sim_event e now) })
    ticks :
        p.has_ended ≡ false
        → (now later : ℕ)
        → Event p (record p { state = on_received disk dir p.state (ticked now later) })
    ends :
        p.has_ended ≡ false
        → p.is_done ≡ true
        → (now later : ℕ)
        → Event p (record p { has_ended = true; state = stop disk dir now later p.state })

  pub data History : Process → Type 0 where
    begins : History (new_tracker disk dir)
    goes_on : {p q : Process} → History p → Event p q → History q

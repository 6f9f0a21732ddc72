-- ===== src/System/Recording.antt =====
-- The whole server with the goroutine of tracker.go: a call of RelayClient.Broadcast that has a bundle
-- hash calls RecordHash.
pub mod Events
pub mod Lines
pub mod Tests
use bundle_broadcaster.Common.{ℕ, List, [], ◌∷◌, ◌++◌, ◌≡◌, String}
use bundle_broadcaster.Tracker.Events.{HashEvent}
use bundle_broadcaster.Tracker.Loop.{Disk}
use bundle_broadcaster.Tracker.Process.{
  Process, new_tracker, record_hash, Event, records_hash, records_sim, stops, takes_hash, takes_sim,
  ticks, ends,
}
use bundle_broadcaster.Relay.Client.{Services, Effect}
use bundle_broadcaster.Relay.Client.Recording.{recordings}
use bundle_broadcaster.Manager.Build.{RelayManager}
use bundle_broadcaster.System.State.{System, start_system}
use bundle_broadcaster.System.Interleaving

-- RecordHash for each event of a list that has the latest first.
abbrev pub record_each : List HashEvent → Process → Process
record_each [] p = p
record_each (e ∷ es) p = record_hash e (record_each es p)

pub record Recorder : Type 0 where
  pub system : System
  pub tracker : Process

module _ (disk : Disk) (dir : String) where
  -- What happens to the tracker, other than RecordHash: the goroutine goes on, the simulator calls
  -- RecordSim, or Stop is called.
  abbrev pub IsElsewhere : {p q : Process} → Event disk dir p q → Type 0
  IsElsewhere (records_hash e) = ⊥
  IsElsewhere (records_sim e) = Unit
  IsElsewhere (stops open_yet) = Unit
  IsElsewhere (takes_hash runs e rest waits stamped at) = Unit
  IsElsewhere (takes_sim runs e rest waits now) = Unit
  IsElsewhere (ticks runs now later) = Unit
  IsElsewhere (ends runs done now later) = Unit

  module _ (w : Services) (m : RelayManager) where
    pub data Step (s : Recorder) : Recorder → Type 0 where
      -- A step of the server, with the calls of RecordHash that its new effects are.
      serves :
          (t : System)
          → Interleaving.Step w m s.system t
          → (new : List Effect) → t.effects ≡ new ++ s.system.effects
          → Step s (record { system = t; tracker = record_each (recordings new) s.tracker })
      tracks :
          (q : Process) (event : Event disk dir s.tracker q)
          → IsElsewhere event
          → Step s (record s { tracker = q })

    pub data Reachable (now : ℕ) : Recorder → Type 0 where
      started : Reachable now (record { system = start_system now; tracker = new_tracker disk dir })
      later : {s t : Recorder} → Reachable now s → Step s t → Reachable now t

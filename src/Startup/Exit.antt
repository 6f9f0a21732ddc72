-- ===== src/Startup/Exit.antt =====
-- The end of main.go: the signal, the shutdown of the parts, and the return, while the goroutines run on.
use bundle_broadcaster.Common.{ℕ, Bool, true, false, String, List, ◌≡◌, All}
use bundle_broadcaster.Relay.Client.{Services}
use bundle_broadcaster.Manager.Build.{RelayManager}
use bundle_broadcaster.Manager.Life.{shutdown}
use bundle_broadcaster.Server.State.{WsServer}
use bundle_broadcaster.Server.Stopping.{HasReturned}
use bundle_broadcaster.Tracker.Loop.{Disk}
use bundle_broadcaster.Tracker.Process.{new_tracker}
use bundle_broadcaster.System.State.{start_system}
use bundle_broadcaster.System.Recording.{Recorder}
use bundle_broadcaster.System.Recording
pub mod Workers
pub mod Order
pub mod Losses
mod Tests

-- Where the goroutine of main is: it waits for the signal; it is in wsServer.Shutdown, in the Shutdown of
-- the HTTP server, before manager.Shutdown, or before its return; or the process has ended. The Bool says
-- whether wsServer.Shutdown has returned nil, and not the error of its context.
pub data MainPhase : Type 0 where
  serving shutting_down : MainPhase
  closing_http closing_manager returning exited : Bool → MainPhase

unfoldable pub is_running : MainPhase → Bool
is_running serving = true
is_running shutting_down = true
is_running (closing_http clean) = true
is_running (closing_manager clean) = true
is_running (returning clean) = true
is_running (exited clean) = false

pub record MainState : Type 0 where
  pub phase : MainPhase
  pub recorder : Recorder

-- Only wsServer.Shutdown closes the server.
abbrev pub MayClose : MainPhase → WsServer → WsServer → Type 0
MayClose shutting_down s t = Unit
MayClose _ s t =
    (t.closed ≡ s.closed) × (t.cancelled ≡ s.cancelled) × (t.queue_closed ≡ s.queue_closed)

abbrev pub server_of : MainState → WsServer
server_of s = s.recorder.system.server

module _ (disk : Disk) (dir : String) (w : Services) (m : RelayManager) where
  pub data Step (s : MainState) : MainState → Type 0 where
    -- Any other goroutine goes on, or main does one of the first three statements of wsServer.Shutdown.
    runs :
        (r : Recorder)
        → is_running s.phase ≡ true
        → Recording.Step disk dir w m s.recorder r
        → MayClose s.phase (server_of s) r.system.server
        → r.tracker.is_done ≡ s.recorder.tracker.is_done
        → Step s (record s { recorder = r })
    gets_signal : s.phase ≡ serving → Step s (record s { phase = shutting_down })
    -- wg.Wait has returned.
    finds_done :
        s.phase ≡ shutting_down
        → (server_of s).queue_closed ≡ true
        → All HasReturned (server_of s).workers
        → Step s (record s { phase = closing_http true })
    -- The context of Shutdown is done first, after 30 seconds.
    times_out :
        s.phase ≡ shutting_down
        → (server_of s).queue_closed ≡ true
        → Step s (record s { phase = closing_http false })
    closes_http :
        (clean : Bool)
        → s.phase ≡ closing_http clean
        → Step s (record s { phase = closing_manager clean })
    closes_manager :
        (clean : Bool)
        → s.phase ≡ closing_manager clean
        → Step s (record {
          phase = returning clean;
          recorder = record s.recorder { tracker = shutdown m s.recorder.tracker };
        })
    -- The process ends with main, whatever its other goroutines do.
    returns :
        (clean : Bool) → s.phase ≡ returning clean → Step s (record s { phase = exited clean })

  pub data Steps (s : MainState) : MainState → Type 0 where
    here : Steps s s
    next : {t u : MainState} → Steps s t → Step t u → Steps s u

  -- What may come about after main has started the server at a time.
  abbrev pub Reachable : ℕ → MainState → Type 0
  Reachable now s =
      Steps
        (record {
          phase = serving;
          recorder = record { system = start_system now; tracker = new_tracker disk dir };
        })
        s

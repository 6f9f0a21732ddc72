-- ===== src/Startup/Exit/Order.antt =====
-- What has come to an end when main returns.
use bundle_broadcaster.Common.{ℕ, Bool, true, String, [], ◌≡◌, All, subst, refl, ◌∙◌}
use bundle_broadcaster.Relay.Client.{Services}
use bundle_broadcaster.Manager.Build.{RelayManager}
use bundle_broadcaster.Manager.Life.{shutdown}
use bundle_broadcaster.Server.State.{WsServer}
use bundle_broadcaster.Server.Stopping.{HasReturned}
use bundle_broadcaster.Tracker.Loop.{Disk}
use bundle_broadcaster.System.Interleaving.{busy, serves, starts, moves, finishes}
use bundle_broadcaster.System.Interleaving
use bundle_broadcaster.System.Recording.{Recorder}
use bundle_broadcaster.System.Recording
use bundle_broadcaster.Startup.Exit.{
  MainPhase, serving, shutting_down, closing_http, closing_manager, returning, exited, MainState,
  MayClose, server_of, Step, runs, gets_signal, finds_done, times_out, closes_http, closes_manager,
  returns, here, next, Reachable,
}
use bundle_broadcaster.Startup.Exit.Workers.{Step-HasReturned, no_jobs}

-- What holds once wsServer.Shutdown has returned.
abbrev pub After : (Bool → Type 0) → MainPhase → Type 0
After P serving = Unit
After P shutting_down = Unit
After P (closing_http clean) = P clean
After P (closing_manager clean) = P clean
After P (returning clean) = P clean
After P (exited clean) = P clean

After-imp :
    (P Q : Bool → Type 0) (p : MainPhase)
    → ((clean : Bool) → P clean → Q clean)
    → After P p
    → After Q p
After-imp P Q serving f h = tt
After-imp P Q shutting_down f h = tt
After-imp P Q (closing_http clean) f h = f clean h
After-imp P Q (closing_manager clean) f h = f clean h
After-imp P Q (returning clean) f h = f clean h
After-imp P Q (exited clean) f h = f clean h

abbrev Closed : WsServer → Bool → Type 0
Closed s clean = (s.queue_closed ≡ true) × (clean ≡ true → All HasReturned s.workers)

Closed-later :
    (p : MainPhase) (s t : WsServer)
    → MayClose p s t
    → (All HasReturned s.workers → All HasReturned t.workers)
    → After (Closed s) p
    → After (Closed t) p
Closed-later serving s t may f h = tt
Closed-later shutting_down s t may f h = tt
Closed-later (closing_http clean) s t may f h = (may.2 ∙ h.0, λ e. f (h.1 e))
Closed-later (closing_manager clean) s t may f h = (may.2 ∙ h.0, λ e. f (h.1 e))
Closed-later (returning clean) s t may f h = (may.2 ∙ h.0, λ e. f (h.1 e))
Closed-later (exited clean) s t may f h = (may.2 ∙ h.0, λ e. f (h.1 e))

-- Stop has been called, if there is a tracker.
abbrev pub IsStopped : RelayManager → MainState → Type 0
IsStopped m s = m.tracker ≡ true → s.recorder.tracker.is_done ≡ true

abbrev pub AfterStop : RelayManager → MainState → MainPhase → Type 0
AfterStop m s serving = Unit
AfterStop m s shutting_down = Unit
AfterStop m s (closing_http clean) = Unit
AfterStop m s (closing_manager clean) = Unit
AfterStop m s (returning clean) = IsStopped m s
AfterStop m s (exited clean) = IsStopped m s

module _ (disk : Disk) (dir : String) (w : Services) (m : RelayManager) (now : ℕ) where
  record Inv (s : MainState) : Type 0 where
    reached : Interleaving.Reachable w m now s.recorder.system
    closed : After (Closed (server_of s)) s.phase
    stopped : AfterStop m s s.phase

  AfterStop-later :
      (s t : MainState) (p : MainPhase)
      → t.recorder.tracker.is_done ≡ s.recorder.tracker.is_done
      → AfterStop m s p
      → AfterStop m t p
  AfterStop-later s t serving same h = tt
  AfterStop-later s t shutting_down same h = tt
  AfterStop-later s t (closing_http clean) same h = tt
  AfterStop-later s t (closing_manager clean) same h = tt
  AfterStop-later s t (returning clean) same h = λ on. same ∙ h on
  AfterStop-later s t (exited clean) same h = λ on. same ∙ h on

  runs-Inv :
      (s : MainState) (r : Recorder)
      → Recording.Step disk dir w m s.recorder r
      → MayClose s.phase (server_of s) r.system.server
      → r.tracker.is_done ≡ s.recorder.tracker.is_done
      → Inv s
      → Inv (record s { recorder = r })
  runs-Inv s r (Recording.serves t st new same) may done v = record {
    reached = Interleaving.later v.reached st;
    closed = Closed-later s.phase (server_of s) t.server may (Step-HasReturned w m st) v.closed;
    stopped = AfterStop-later s (record s { recorder = r }) s.phase done v.stopped;
  }
  runs-Inv s r (Recording.tracks q event it) may done v = record {
    reached = v.reached;
    closed = v.closed;
    stopped = AfterStop-later s (record s { recorder = r }) s.phase done v.stopped;
  }

  shutdown-is_done :
      (s : MainState) (p : MainPhase)
      → m.tracker ≡ true
      → (shutdown m s.recorder.tracker).is_done ≡ true
  unfolding shutdown
  shutdown-is_done s p on = rw on refl

  Step-Inv : {s t : MainState} → Step disk dir w m s t → Inv s → Inv t
  Step-Inv {s} (runs r running st may done) v = runs-Inv s r st may done v
  Step-Inv (gets_signal e) v = record { reached = v.reached; closed = tt; stopped = tt }
  Step-Inv (finds_done e closed all) v = record {
    reached = v.reached;
    closed = (closed, λ _. all);
    stopped = tt;
  }
  Step-Inv (times_out e closed) v = record {
    reached = v.reached;
    closed = (closed, λ z. cc z);
    stopped = tt;
  }
  Step-Inv {s} (closes_http clean e) v = record {
    reached = v.reached;
    closed = subst (After (Closed (server_of s))) e v.closed;
    stopped = tt;
  }
  Step-Inv {s} (closes_manager clean e) v = record {
    reached = v.reached;
    closed = subst (After (Closed (server_of s))) e v.closed;
    stopped = shutdown-is_done s (returning clean);
  }
  Step-Inv {s} (returns clean e) v = record {
    reached = v.reached;
    closed = subst (After (Closed (server_of s))) e v.closed;
    stopped = subst (AfterStop m s) e v.stopped;
  }

  Reachable-Inv : {s : MainState} → Reachable disk dir w m now s → Inv s
  Reachable-Inv here = record { reached = Interleaving.started; closed = tt; stopped = tt }
  Reachable-Inv (next r st) = Step-Inv st (Reachable-Inv r)

  -- The parts end in the right order. In every state of the process after wsServer.Shutdown has
  -- returned, the queue is closed, and if it returned nil then no bundle is being broadcast; and once
  -- manager.Shutdown has returned, the tracker has been told to stop, if there is one.
  pub main_stops_in_order :
      {s : MainState}
      → Reachable disk dir w m now s
      → After
          (λ clean.
            ((server_of s).queue_closed ≡ true) × (clean ≡ true → s.recorder.system.jobs ≡ []))
          s.phase
        × AfterStop m s s.phase
  main_stops_in_order {s} r =
      let v = Reachable-Inv r in
      (
        After-imp (Closed (server_of s)) _ s.phase
            (λ clean h. (h.0, λ e. no_jobs w m now s.recorder.system v.reached (h.1 e))) v.closed,
        v.stopped,
      )

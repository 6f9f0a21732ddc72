-- ===== src/Startup/Exit/Losses.antt =====
-- What the return of main may leave undone.
use mathlib.Core.List.{Memᴰ}
use bundle_broadcaster.Common.{ℕ, Bool, String, ◌≡◌, false, refl, arith, subst, sym, ap}
use bundle_broadcaster.Relay.Client.{Services}
use bundle_broadcaster.Manager.Build.{RelayManager}
use bundle_broadcaster.Manager.Life.{shutdown}
use bundle_broadcaster.Tracker.Loop.{Disk, TrackerState}
use bundle_broadcaster.Tracker.Flush.{Tagged, entries}
use bundle_broadcaster.Tracker.Process.{Process}
use bundle_broadcaster.Startup.Exit.{
  closing_manager, exited, is_running, MainState, Step, runs, gets_signal, finds_done, times_out,
  closes_http, closes_manager, returns, next, Reachable,
}

shutdown-state : (m : RelayManager) (p : Process) → (shutdown m p).state ≡ p.state
unfolding shutdown
shutdown-state m p = ground arith

no-Step :
    (disk : Disk) (dir : String) (w : Services) (m : RelayManager) (t u : MainState) (clean : Bool)
    → t.phase ≡ exited clean
    → ¬ Step disk dir w m t u
unfolding is_running
no-Step disk dir w m t u clean at (runs r running st may done) =
    let h : false ≡ is_running t.phase = sym (ap is_running at) in cc (h, running)
no-Step disk dir w m t u clean at (gets_signal e) = cc (at, e)
no-Step disk dir w m t u clean at (finds_done e closed all) = cc (at, e)
no-Step disk dir w m t u clean at (times_out e closed) = cc (at, e)
no-Step disk dir w m t u clean at (closes_http clean' e) = cc (at, e)
no-Step disk dir w m t u clean at (closes_manager clean' e) = cc (at, e)
no-Step disk dir w m t u clean at (returns clean' e) = cc (at, e)

-- A record may be lost when the process ends in an orderly way: from any state of it before
-- manager.Shutdown in which a record is pending, main may return before the goroutine of the tracker has
-- done anything more. The record is then pending still, no line has been added to the files, and the
-- process is over: no step leads on, so that it is never written.
pub exit_may_lose :
    (disk : Disk) (dir : String) (w : Services) (m : RelayManager) (now : ℕ) (s : MainState)
    → Reachable disk dir w m now s
    → (clean : Bool) → s.phase ≡ closing_manager clean
    → (x : Tagged) → Memᴰ x (entries s.recorder.tracker.state.pending)
    → (t : MainState) × Reachable disk dir w m now t
      × Memᴰ x (entries t.recorder.tracker.state.pending)
      × (t.recorder.tracker.state.lines ≡ s.recorder.tracker.state.lines)
      × ((u : MainState) → ¬ Step disk dir w m t u)
exit_may_lose disk dir w m now s reached clean at x waits =
    let same = shutdown-state m s.recorder.tracker in
    (
      record {
        phase = exited clean;
        recorder = record s.recorder { tracker = shutdown m s.recorder.tracker };
      },
      next (next reached (closes_manager clean at)) (returns clean refl),
      subst (λ (st : TrackerState). Memᴰ x (entries st.pending)) (sym same) waits,
      ap (λ (st : TrackerState). st.lines) same,
      λ u st. no-Step disk dir w m _ u clean refl st,
    )

-- ===== src/System/Interleaving.antt =====
-- The steps of the whole server, in any order.
use bundle_broadcaster.Common.{ℕ, List, [], ◌∷◌, ◌++◌, ◌≡◌}
use bundle_broadcaster.Bundle.{IncomingBundle}
use bundle_broadcaster.Relay.Client.{Services, Call}
use bundle_broadcaster.Manager.Build.{RelayManager}
use bundle_broadcaster.Server.State.{Worker, selecting, broadcasting, returned, WsServer, take}
use bundle_broadcaster.Server.Steps
use bundle_broadcaster.System.State.{
  Job, ClientCall, System, move, after_move, start_job, start_system,
}

-- The bundles that the workers are broadcasting.
abbrev pub busy : List Worker → List IncomingBundle
busy [] = []
busy (selecting ∷ ws) = busy ws
busy (broadcasting b ∷ ws) = b ∷ busy ws
busy (returned ∷ ws) = busy ws

module _ (w : Services) (m : RelayManager) where
  pub data Step (s : System) : System → Type 0 where
    -- A step of the server by which no worker takes or finishes a bundle.
    serves :
        (t : WsServer)
        → Steps.Step s.server t
        → busy t.workers ≡ busy s.server.workers
        → Step s (record s { server = t })
    -- A worker takes a bundle and calls manager.Broadcast, which starts a goroutine for each client.
    starts :
        (before after : List Worker)
        → s.server.workers ≡ before ++ (selecting ∷ after)
        → (b : IncomingBundle) (rest : List IncomingBundle) → s.server.queue ≡ b ∷ rest
        → Step s
            (record s { server = take s.server before after b rest; jobs = start_job m b ∷ s.jobs })
    -- A goroutine goes on. The wall clock may go back.
    moves :
        (jobs_before jobs_after : List Job) (job : Job)
        → s.jobs ≡ jobs_before ++ (job ∷ jobs_after)
        → (before after : List ClientCall) (call : ClientCall)
        → job.calls ≡ before ++ (call ∷ after)
        → (now : ℕ) (world : Call)
        → Step s (
            after_move s jobs_before job jobs_after before call after now (
              move w job.prepared call.number call.client call.phase now world
                (s.cells call.number)))
    -- `wg.Wait()` returns, and the worker selects again.
    finishes :
        (before after : List Worker) (b : IncomingBundle)
        → s.server.workers ≡ before ++ (broadcasting b ∷ after)
        → (jobs_before jobs_after : List Job) (job : Job)
        → s.jobs ≡ jobs_before ++ (job ∷ jobs_after)
        → job.origin ≡ b
        → job.calls ≡ []
        → Step s (record s {
          server = record s.server { workers = before ++ (selecting ∷ after) };
          jobs = jobs_before ++ jobs_after;
        })

  -- What may come about after main has started the server at a time.
  pub data Reachable (now : ℕ) : System → Type 0 where
    started : Reachable now (start_system now)
    later : {s t : System} → Reachable now s → Step s t → Reachable now t

  -- What each step keeps holds in every reachable state.
  pub Reachable-keep :
      (P : System → Type 0) (now : ℕ)
      → P (start_system now)
      → ((s t : System) → Step s t → P s → P t)
      → {s : System} → Reachable now s
      → P s
  Reachable-keep P now base kept started = base
  Reachable-keep P now base kept (later r st) = kept _ _ st (Reachable-keep P now base kept r)

  -- A step of the whole is a step of the server, or leaves it alone.
  Step-server : {s t : System} → Step s t → Steps.Reachable s.server → Steps.Reachable t.server
  unfolding after_move
  Step-server (serves t st e) r = Steps.next r st
  Step-server (starts before after e b rest q) r =
      Steps.next r (Steps.takes before after e b rest q)
  Step-server (moves jb ja job e before after call e' now world) r = r
  Step-server (finishes before after b e jb ja job e' same done) r =
      Steps.next r (Steps.finishes before after b e)

  -- So all that holds of every reachable server holds here.
  pub Reachable-server : {now : ℕ} {s : System} → Reachable now s → Steps.Reachable s.server
  unfolding start_system
  Reachable-server started = Steps.here
  Reachable-server (later r st) = Step-server st (Reachable-server r)

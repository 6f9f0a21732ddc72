-- ===== src/Startup/Exit/Workers.antt =====
-- Workers that have returned.
use bundle_broadcaster.Common.{
  ℕ, List, [], ◌∷◌, ◌++◌, ◌≡◌, ◌≢◌, All, All-at, subst, refl, arith, length, ap, ◌∙◌,
}
use bundle_broadcaster.Relay.Client.{Services}
use bundle_broadcaster.Manager.Build.{RelayManager}
use bundle_broadcaster.Bundle.{IncomingBundle}
use bundle_broadcaster.Server.State.{
  WsServer, Handler, Worker, selecting, broadcasting, returned, receive, offer,
}
use bundle_broadcaster.Server.Stopping.{HasReturned}
use bundle_broadcaster.Server.Steps
use bundle_broadcaster.System.State.{System, Job, after_move}
use bundle_broadcaster.System.Interleaving.{busy, serves, starts, moves, finishes}
use bundle_broadcaster.System.Interleaving
use bundle_broadcaster.System.Load.{in_flight_bounds}

none_at_work :
    (ws before after : List Worker) (x : Worker)
    → x ≢ returned
    → ws ≡ before ++ (x ∷ after)
    → ¬ All HasReturned ws
none_at_work ws before after x works e h =
    works (All-at HasReturned before after x (subst (All HasReturned) e h))

offer-workers :
    (s : WsServer) (before after : List Handler) (b : IncomingBundle)
    → (offer s before after b).workers ≡ s.workers
unfolding offer
offer-workers s before after b = ground arith

receive-workers :
    (s : WsServer) (before after : List Handler) (b : IncomingBundle)
    → (receive s before after b).workers ≡ s.workers
unfolding receive
receive-workers s before after b = ground arith

-- Workers that have returned stay so.
server-HasReturned :
    {s t : WsServer} → Steps.Step s t → All HasReturned s.workers → All HasReturned t.workers
server-HasReturned (Steps.connects) h = h
server-HasReturned (Steps.leaves before after e) h = h
server-HasReturned {s} (Steps.receives before after b e) h = rw (receive-workers s before after b) h
server-HasReturned {s} (Steps.offers before after b e) h = rw (offer-workers s before after b) h
server-HasReturned (Steps.takes before after e b rest q) h =
    absurd (none_at_work _ before after selecting (λ z. cc z) e h)
server-HasReturned (Steps.finishes before after b e) h =
    absurd (none_at_work _ before after (broadcasting b) (λ z. cc z) e h)
server-HasReturned (Steps.quits cancelled before after e) h =
    absurd (none_at_work _ before after selecting (λ z. cc z) e h)
server-HasReturned (Steps.runs_out closed empty before after e) h =
    absurd (none_at_work _ before after selecting (λ z. cc z) e h)
server-HasReturned (Steps.sets_closed open_yet) h = h
server-HasReturned (Steps.cancels closed not_yet) h = h
server-HasReturned (Steps.closes_queue cancelled not_yet) h = h

module _ (w : Services) (m : RelayManager) where
  pub Step-HasReturned :
      {s t : System}
      → Interleaving.Step w m s t
      → All HasReturned s.server.workers
      → All HasReturned t.server.workers
  unfolding after_move
  Step-HasReturned (serves t st e) h = server-HasReturned st h
  Step-HasReturned (starts before after e b rest q) h =
      absurd (none_at_work _ before after selecting (λ z. cc z) e h)
  Step-HasReturned (moves jb ja job e before after call e' now world) h = h
  Step-HasReturned (finishes before after b e jb ja job e' same done) h =
      absurd (none_at_work _ before after (broadcasting b) (λ z. cc z) e h)

length_zero : (jobs : List Job) → length jobs ≡ 0 → jobs ≡ []
length_zero [] h = refl
length_zero (job ∷ jobs) h = absurd (omega (arith, h))

busy_none : (ws : List Worker) → All HasReturned ws → busy ws ≡ []
busy_none [] h = refl
busy_none (selecting ∷ ws) h = absurd (cc (h.0))
busy_none (broadcasting b ∷ ws) h = absurd (cc (h.0))
busy_none (returned ∷ ws) h = busy_none ws h.1

pub no_jobs :
    (w : Services) (m : RelayManager) (now : ℕ) (s : System)
    → Interleaving.Reachable w m now s
    → All HasReturned s.server.workers
    → s.jobs ≡ []
no_jobs w m now s reached all =
    length_zero s.jobs
      ((in_flight_bounds w m now s reached 0).0 ∙ ap length (busy_none s.server.workers all))

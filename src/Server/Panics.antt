-- ===== src/Server/Panics.antt =====
-- The panics of sends on the closed queue.
use bundle_broadcaster.Common.{
  [], ◌∷◌, ◌++◌, List, ◌≡◌, refl, arith, false, true, sym, ap, ◌∙◌, ◌≢◌, Bool-cases, inl, inr,
}
use bundle_broadcaster.Bundle.{IncomingBundle}
use bundle_broadcaster.Server.State.{
  Handler, reading, offering, WsServer, start_server, receive, offer, take,
}
use bundle_broadcaster.Server.Steps.{
  Step, connects, leaves, receives, offers, takes, finishes, quits, runs_out, sets_closed, cancels,
  closes_queue, Steps, here, next, Reachable, Steps-keep,
}
use bundle_broadcaster.Server.Balance.{offered}

-- No bundle is lost before Shutdown has closed the queue, and it has set `closed` before.
abbrev Blamed : WsServer → Type 0
Blamed s =
    (s.queue_closed ≡ false → s.lost ≡ [])
    × (s.queue_closed ≡ true → s.cancelled ≡ true)
    × (s.cancelled ≡ true → s.closed ≡ true)

receive-Blamed :
    (s : WsServer) (before after : List Handler) (b : IncomingBundle)
    → Blamed s
    → Blamed (receive s before after b)
unfolding receive
receive-Blamed s before after b v = ground (arith, v.0, v.1, v.2)

offer-Blamed :
    (s : WsServer) (before after : List Handler) (b : IncomingBundle)
    → Blamed s
    → Blamed (offer s before after b)
unfolding offer
offer-Blamed s before after b v = ground (arith, v.0, v.1, v.2)

Step-Blamed : (s t : WsServer) → Step s t → Blamed s → Blamed t
unfolding take
Step-Blamed s t connects v = v
Step-Blamed s t (leaves before after e) v = v
Step-Blamed s t (receives before after b e) v = receive-Blamed s before after b v
Step-Blamed s t (offers before after b e) v = offer-Blamed s before after b v
Step-Blamed s t (takes before after e b rest q) v = v
Step-Blamed s t (finishes before after b e) v = v
Step-Blamed s t (quits d before after e) v = v
Step-Blamed s t (runs_out d q before after e) v = v
Step-Blamed s t (sets_closed d) v = (v.0, v.1, λ _. refl)
Step-Blamed s t (cancels d e) v = (v.0, λ _. refl, λ _. d)
Step-Blamed s t (closes_queue d e) v = (λ z. cc z, λ _. d, v.2)

-- `closed` is set, no connection is about to send a bundle, and these bundles are lost.
abbrev Quiet : List IncomingBundle → WsServer → Type 0
Quiet lost s = (s.closed ≡ true) × (offered s.handlers ≡ []) × (s.lost ≡ lost)

offered-set :
    (before after : List Handler)
    → offered (before ++ (reading ∷ after)) ≡ offered (before ++ after)
offered-set [] after = refl
offered-set (reading ∷ hs) after = offered-set hs after
offered-set (offering b ∷ hs) after = ap (◌∷◌ b) (offered-set hs after)

offered-offering :
    (before after : List Handler) (b : IncomingBundle)
    → offered (before ++ (offering b ∷ after)) ≢ []
offered-offering [] after b h = ground arith
offered-offering (reading ∷ hs) after b h = offered-offering hs after b h
offered-offering (offering c ∷ hs) after b h = ground arith

Step-Quiet : (lost : List IncomingBundle) (s t : WsServer) → Step s t → Quiet lost s → Quiet lost t
unfolding receive take
Step-Quiet lost s t connects v = v
Step-Quiet lost s t (leaves before after e) v =
    (v.0, sym (offered-set before after) ∙ (rw e at v.1), v.2)
Step-Quiet lost s t (receives before after b e) v = rw v.0 (refl, rw e at v.1, v.2)
Step-Quiet lost s t (offers before after b e) v =
    absurd (offered-offering before after b (rw e at v.1))
Step-Quiet lost s t (takes before after e b rest q) v = v
Step-Quiet lost s t (finishes before after b e) v = v
Step-Quiet lost s t (quits d before after e) v = v
Step-Quiet lost s t (runs_out d q before after e) v = v
Step-Quiet lost s t (sets_closed d) v = (refl, v.1, v.2)
Step-Quiet lost s t (cancels d e) v = v
Step-Quiet lost s t (closes_queue d e) v = v

-- A bundle is lost by a panic only once Shutdown has closed the queue; and no more are lost from a state
-- on in which `closed` is set and no connection is between its test of `closed` and its send.
pub losses_end :
    (s t : WsServer)
    → Reachable s
    → Steps s t
    → (s.lost ≢ [] → (s.queue_closed ≡ true) × (s.closed ≡ true))
      × (s.closed ≡ true → offered s.handlers ≡ [] → t.lost ≡ s.lost)
unfolding start_server
losses_end s t reached steps =
    let v = Steps-keep Blamed Step-Blamed reached (λ h. refl, λ h. cc, λ h. cc) in
    (
      λ some_lost. elim (Bool-cases s.queue_closed) [
        | inl over ↦ (over, v.2 (v.1 over))
        | inr open_yet ↦ absurd (some_lost (v.0 open_yet))
      ],
      λ closed silent.
          (Steps-keep (Quiet s.lost) (Step-Quiet s.lost) steps (closed, silent, refl)).2,
    )

-- Shutdown may lose a bundle: whenever a connection is between its test of `closed` and its send, and
-- Shutdown has not begun, there is an order of the steps of Shutdown and the send in which the send
-- panics: the connection ends, and its bundle is neither put into the queue nor logged as dropped.
pub shutdown_may_lose :
    (s : WsServer) (before after : List Handler) (b : IncomingBundle)
    → s.handlers ≡ before ++ (offering b ∷ after)
    → s.closed ≡ false
    → s.cancelled ≡ false
    → s.queue_closed ≡ false
    → (t : WsServer) × Steps s t
      × (t.handlers ≡ before ++ after)
      × (t.lost ≡ b ∷ s.lost)
      × (t.queue ≡ s.queue)
      × (t.dropped ≡ s.dropped)
unfolding offer
shutdown_may_lose s before after b e closed cancelled opened =
    let s1 : WsServer = record s { closed = true } in
    let s2 : WsServer = record s1 { cancelled = true } in
    let s3 : WsServer = record s2 { queue_closed = true } in
    (
      offer s3 before after b,
      next
          (next (next (next here (sets_closed closed)) (cancels refl cancelled))
            (closes_queue refl opened))
          (offers before after b e),
      refl,
      refl,
      refl,
      refl,
    )

-- ===== src/System/Accounts.antt =====
-- What the counters say of the received bundles.
use bundle_broadcaster.Common.{
  keep, ℕ, suc, ◌+◌, ◌*◌, ◌≡◌, ◌∙◌, sym, ap, refl, arith, String, List, [], ◌∷◌, ◌++◌, length, map,
  true,
}
use bundle_broadcaster.Bundle.{IncomingBundle}
use bundle_broadcaster.Relay.Client.{RelayClient, Services, Call, send}
use bundle_broadcaster.Relay.Client.Outcomes.{Outcome, outcomes}
use bundle_broadcaster.Relay.Client.Paths.{send-paths}
use bundle_broadcaster.Relay.Client.Verdict.{exchange-Counted}
use bundle_broadcaster.Counters.{
  one_if, outcomes_of, counted, counted-outcomes, counted-append, bundle_received_total,
  bundle_sent_total, bundle_failed_total, bundle_rate_limited_total,
}
use bundle_broadcaster.Manager.Build.{RelayManager}
use bundle_broadcaster.Manager.Fanout.{number_from}
use native.Mathlib.Nat.{suc-mul, add-mul}
use bundle_broadcaster.System.Load.{busy-append}
use bundle_broadcaster.Server.State.{
  WsServer, take, receive, offer, Worker, selecting, broadcasting,
}
use bundle_broadcaster.Server.Steps
use bundle_broadcaster.Server.Balance.{Sound, Reachable-Sound, offered}
use bundle_broadcaster.System.State.{
  Phase, waiting, checking, sending, answered, Job, ClientCall, System, at_cell, move, goes_to,
  after_move, start_job, start_call, start_system,
}
use bundle_broadcaster.System.Interleaving.{
  busy, Step, serves, starts, moves, finishes, Reachable, Reachable-keep, Reachable-server,
}

-- The entries of the configuration under a name that have a client.
abbrev pub entries : String → List RelayClient → ℕ
entries name [] = 0
entries name (c ∷ cs) = one_if c.relay.name name + entries name cs

-- The calls to relays of that name that have not returned.
abbrev pub open_calls : String → List ClientCall → ℕ
open_calls name [] = 0
open_calls name (call ∷ calls) = one_if call.client.relay.name name + open_calls name calls

abbrev pub unfinished : String → List Job → ℕ
unfinished name [] = 0
unfinished name (job ∷ jobs) = open_calls name job.calls + unfinished name jobs

module _ (name : String) where
  open_calls-append :
      (xs ys : List ClientCall)
      → open_calls name (xs ++ ys) ≡ open_calls name xs + open_calls name ys
  open_calls-append [] ys = omega arith
  open_calls-append (x ∷ xs) ys = omega (arith, open_calls-append xs ys)

  unfinished-append :
      (xs ys : List Job) → unfinished name (xs ++ ys) ≡ unfinished name xs + unfinished name ys
  unfinished-append [] ys = omega arith
  unfinished-append (x ∷ xs) ys = omega (arith, unfinished-append xs ys)

  open_calls-start :
      (k : ℕ) (cs : List RelayClient)
      → open_calls name (map start_call (number_from k cs)) ≡ entries name cs
  unfolding number_from
  open_calls-start k [] = refl
  open_calls-start k (c ∷ cs) = omega (arith, open_calls-start (k + 1) cs)

module _ (w : Services) (name : String) where
  -- Whatever the cell holds, a call that is past the guard counts once.
  send-outcomes :
      (c : RelayClient) (b : IncomingBundle) (call : Call)
      → (o : Outcome) × (outcomes (send w c b call).1 ≡ (o, c.relay.name) ∷ [])
  send-outcomes c b call =
      send-paths w c b call (λ p. (o : Outcome) × (outcomes p.1 ≡ (o, c.relay.name) ∷ []))
        (λ h. (Outcome.lost, refl))
        (λ r h. let e = exchange-Counted w c b call r in (e.0, e.1.counted))

  counted-send :
      (c : RelayClient) (b : IncomingBundle) (call : Call)
      → counted name (send w c b call).1 ≡ one_if c.relay.name name
  counted-send c b call =
      let s = send-outcomes c b call in
      counted-outcomes name (send w c b call).1 ∙ ap (outcomes_of name) s.1 ∙ omega arith

  -- A step of a call counts once if the call returns by it, and else nothing.
  counted-move :
      (b : IncomingBundle) (n : ℕ) (c : RelayClient) (p q : Phase) (now : ℕ) (world : Call)
      (cell : ℕ)
      → let moved = move w b n c p now world cell in
        counted name moved.effects
          + open_calls name (goes_to (record { number = n; client = c; phase = q }) moved.goes_on)
        ≡ one_if c.relay.name name
  unfolding move bundle_sent_total bundle_failed_total bundle_rate_limited_total
  counted-move b n c waiting q now world cell = omega arith
  counted-move b n c (checking until) q now world cell = ground arith
  counted-move b n c sending q now world cell = omega arith
  counted-move b n c (answered call) q now world cell =
      omega (arith, counted-send (at_cell c cell) b call)

-- A step that leaves the workers' bundles alone starts no broadcast.
pub started-serves :
    {s t : WsServer} → Steps.Step s t → busy t.workers ≡ busy s.workers → t.started ≡ s.started
unfolding receive offer take
started-serves (Steps.connects) e = refl
started-serves (Steps.leaves before after h) e = refl
started-serves (Steps.receives before after b h) e = ground arith
started-serves (Steps.offers before after b h) e = ground arith
started-serves {s} (Steps.takes before after h b rest q) e = absurd (
    omega (
      arith,
      ap length e,
      ap (λ ws. length (busy ws)) h,
      busy-append before (selecting ∷ after),
      busy-append before (broadcasting b ∷ after),
    ))
started-serves (Steps.finishes before after b h) e = refl
started-serves (Steps.quits d before after h) e = refl
started-serves (Steps.runs_out d q before after h) e = refl
started-serves (Steps.sets_closed d) e = refl
started-serves (Steps.cancels d h) e = refl
started-serves (Steps.closes_queue d h) e = refl

module _ (w : Services) (m : RelayManager) (name : String) where
  -- Every call of every broadcast that was started is counted once, or has not returned.
  abbrev Tallied : System → Type 0
  Tallied s =
      counted name s.effects + unfinished name s.jobs
      ≡ length s.server.started * entries name m.clients

  starts-Tallied :
      (s : System) (before after : List Worker) (b : IncomingBundle) (rest : List IncomingBundle)
      → Tallied s
      → counted name s.effects + unfinished name (start_job m b ∷ s.jobs)
        ≡ length (take s.server before after b rest).started * entries name m.clients
  unfolding start_job take
  starts-Tallied s before after b rest v = omega (
    arith,
    v,
    open_calls-start name 0 m.clients,
    suc-mul (length s.server.started) (entries name m.clients),
  )

  moves-Tallied :
      (s : System) (jb ja : List Job) (job : Job) (before after : List ClientCall)
      (call : ClientCall) (now : ℕ) (world : Call)
      → s.jobs ≡ jb ++ (job ∷ ja)
      → job.calls ≡ before ++ (call ∷ after)
      → Tallied s
      → Tallied (
          after_move s jb job ja before call after now (
            move w job.prepared call.number call.client call.phase now world (s.cells call.number)))
  unfolding after_move
  moves-Tallied s jb ja job before after call now world e e' v =
      let moved =
        move w job.prepared call.number call.client call.phase now world (s.cells call.number) in
      let goes = goes_to call moved.goes_on in
      let next_job = record job { calls = before ++ (goes ++ after) } in
      omega (
        arith,
        v,
        ap (unfinished name) e,
        ap (open_calls name) e',
        unfinished-append name jb (job ∷ ja),
        unfinished-append name jb (next_job ∷ ja),
        open_calls-append name before (call ∷ after),
        open_calls-append name before (goes ++ after),
        open_calls-append name goes after,
        counted-append name moved.effects s.effects,
        counted-move w name job.prepared call.number call.client call.phase call.phase now world
            (s.cells call.number),
      )

  Step-Tallied : (s t : System) → Step w m s t → Tallied s → Tallied t
  Step-Tallied s t (serves u st e) v =
      v ∙ ap (λ bs. length bs * entries name m.clients) (sym (started-serves st e))
  Step-Tallied s t (starts before after e b rest q) v = starts-Tallied s before after b rest v
  Step-Tallied s t (moves jb ja job e before after call e' now world) v =
      moves-Tallied s jb ja job before after call now world e e' v
  Step-Tallied s t (finishes before after b e jb ja job e' same done) v = omega (
    arith,
    v,
    ap (unfinished name) e',
    ap (open_calls name) done,
    unfinished-append name jb (job ∷ ja),
    unfinished-append name jb ja,
  )

length-keep_all : (bs : List IncomingBundle) → length (keep (λ b. true) bs) ≡ length bs
length-keep_all [] = refl
length-keep_all (b ∷ bs) = ap suc (length-keep_all bs)

-- The received bundles for which no broadcast has begun.
abbrev pub not_started : WsServer → ℕ
not_started s = length (offered s.handlers) + length s.queue + length s.dropped + length s.lost

received-splits :
    (s : WsServer) → Sound s → bundle_received_total s ≡ not_started s + length s.started
unfolding bundle_received_total
received-splits s sound = omega (
  arith,
  sound.balanced (λ b. true),
  length-keep_all s.received,
  length-keep_all (offered s.handlers),
  length-keep_all s.queue,
  length-keep_all s.started,
  length-keep_all s.dropped,
  length-keep_all s.lost,
)

module _ (w : Services) (m : RelayManager) (now : ℕ) (s : System)
    (reached : Reachable w m now s) where
  -- The counters account for every received bundle, whatever the goroutines do: take any relay name,
  -- and the number of entries of the configuration that send under it. The bundles received, times that
  -- number, are the bundles counted as sent, failed or rate-limited under the name, and the calls of
  -- Broadcast under it that have not returned, and that number of times the bundles that a connection
  -- is about to put into the queue, that are in it, that were dropped, or that were lost by a panic of
  -- their connection.
  pub counters_account :
      (name : String)
      → bundle_received_total s.server * entries name m.clients
        ≡ bundle_sent_total name s.effects
          + bundle_failed_total name s.effects
          + bundle_rate_limited_total name s.effects
          + unfinished name s.jobs
          + not_started s.server * entries name m.clients
  unfolding start_system bundle_sent_total bundle_failed_total bundle_rate_limited_total
  counters_account name =
      let k = entries name m.clients in
      let none_yet : Tallied w m name (start_system now) = omega arith in
      let tallied : Tallied w m name s =
        Reachable-keep w m (Tallied w m name) now none_yet (Step-Tallied w m name) reached in
      let split =
        received-splits s.server (Reachable-Sound s.server (Reachable-server w m reached)) in
      omega (
        arith,
        tallied,
        ap (λ (n : ℕ). n * k) split,
        add-mul (not_started s.server) (length s.server.started) k,
      )

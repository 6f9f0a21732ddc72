-- ===== src/System/Load.antt =====
-- How many calls a relay has to bear at once.
use bundle_broadcaster.Common.{
  ℕ, ◌+◌, ◌<◌, ap, All-at, All-set, All-remove, length-append, Option, List, [], ◌∷◌, ◌++◌, ◌≡◌,
  ◌≤◌, ◌∙◌, refl, length, eqb, if◌then◌else◌, map, All, none, some, suc, arith, sym, subst,
  length-set,
}
use native.Mathlib.Nat.{le_trans}
use bundle_broadcaster.Bundle.{IncomingBundle}
use bundle_broadcaster.Server.State.{take, worker_count}
use bundle_broadcaster.Relay.Client.{Services, RelayClient}
use bundle_broadcaster.Manager.Build.{RelayManager}
use bundle_broadcaster.Manager.Fanout.{number_from}
use bundle_broadcaster.Server.State.{Worker, selecting, broadcasting, returned, take}
use bundle_broadcaster.System.State.{
  Job, ClientCall, Phase, System, goes_to, after_move, start_job, start_call, start_system,
}
use bundle_broadcaster.Server.Balance.{Reachable-Sound}
use bundle_broadcaster.System.Interleaving.{
  busy, Step, serves, starts, moves, finishes, Reachable, Reachable-keep, Reachable-server,
}

-- The calls of one client's number.
abbrev pub calls_of : ℕ → List ClientCall → ℕ
calls_of n [] = 0
calls_of n (call ∷ calls) = (if eqb call.number n then 1 else 0) + calls_of n calls

-- The calls of client `n` that have begun or are about to, and have not returned.
abbrev pub in_flight : ℕ → List Job → ℕ
in_flight n [] = 0
in_flight n (job ∷ jobs) = calls_of n job.calls + in_flight n jobs

pub busy-append :
    (before after : List Worker)
    → length (busy (before ++ after)) ≡ length (busy before) + length (busy after)
busy-append [] after = omega arith
busy-append (selecting ∷ ws) after = busy-append ws after
busy-append (broadcasting b ∷ ws) after = omega (arith, busy-append ws after)
busy-append (returned ∷ ws) after = busy-append ws after

busy-le : (ws : List Worker) → length (busy ws) ≤ length ws
busy-le [] = omega arith
busy-le (selecting ∷ ws) = omega (arith, busy-le ws)
busy-le (broadcasting b ∷ ws) = omega (arith, busy-le ws)
busy-le (returned ∷ ws) = omega (arith, busy-le ws)

calls_of-append :
    (n : ℕ) (xs ys : List ClientCall) → calls_of n (xs ++ ys) ≡ calls_of n xs + calls_of n ys
calls_of-append n [] ys = omega arith
calls_of-append n (x ∷ xs) ys = omega (arith, calls_of-append n xs ys)

-- The clients are numbered once each.
calls_of-number_from :
    (n k : ℕ) (cs : List RelayClient)
    → (calls_of n (map start_call (number_from k cs)) ≤ 1)
      × (n < k → calls_of n (map start_call (number_from k cs)) ≡ 0)
unfolding number_from
calls_of-number_from n k [] = (omega arith, λ _. refl)
calls_of-number_from n k (c ∷ cs) =
    let ih = calls_of-number_from n (k + 1) cs in ground (arith, ih.0, ih.1)

-- Every job is a busy worker's, and has at most one call of each client.
record Manned (n : ℕ) (s : System) : Type 0 where
  one_each : length s.jobs ≡ length (busy s.server.workers)
  single : All (λ (job : Job). calls_of n job.calls ≤ 1) s.jobs

calls_of-goes_to :
    (n : ℕ) (call : ClientCall) (o : Option Phase) (before after : List ClientCall)
    → calls_of n (before ++ (goes_to call o ++ after)) ≤ calls_of n (before ++ (call ∷ after))
calls_of-goes_to n call none before after =
    omega (arith, calls_of-append n before after, calls_of-append n before (call ∷ after))
calls_of-goes_to n call (some p) before after = omega (
  arith,
  calls_of-append n before (record call { phase = p } ∷ after),
  calls_of-append n before (call ∷ after),
)

busy-selecting :
    (before after : List Worker)
    → length (busy (before ++ (selecting ∷ after))) ≡ length (busy before) + length (busy after)
busy-selecting before after = busy-append before (selecting ∷ after)

busy-broadcasting :
    (before after : List Worker) (b : IncomingBundle)
    → length (busy (before ++ (broadcasting b ∷ after)))
      ≡ length (busy before) + suc (length (busy after))
busy-broadcasting before after b = busy-append before (broadcasting b ∷ after)

module _ (w : Services) (m : RelayManager) (n : ℕ) where
  abbrev IsSingle : Job → Type 0
  IsSingle job = calls_of n job.calls ≤ 1

  Step-Manned : (s t : System) → Step w m s t → Manned n s → Manned n t
  unfolding after_move start_job take
  Step-Manned s t (serves u st e) v = record {
    one_each = v.one_each ∙ sym (ap length e);
    single = v.single;
  }
  Step-Manned s t (starts before after e b rest q) v = record {
    one_each =
        let was = ap (λ ws. length (busy ws)) e in
        omega
          (arith, was, v.one_each, busy-selecting before after, busy-broadcasting before after b);
    single = ((calls_of-number_from n 0 m.clients).0, v.single);
  }
  Step-Manned s t (moves jb ja job e before after call e' now world) v = record {
    one_each = length-set jb ja _ job ∙ sym (ap length e) ∙ v.one_each;
    single =
        All-set IsSingle jb ja job _
          (le_trans (calls_of-goes_to n call _ before after)
            (subst (λ cs. calls_of n cs ≤ 1) e' (All-at IsSingle jb ja job single)))
          single;
  }
    where
      single : All IsSingle (jb ++ (job ∷ ja))
      single = subst (All IsSingle) e v.single
  Step-Manned s t (finishes before after b e jb ja job e' same done) v = record {
    one_each =
        let was = ap (λ ws. length (busy ws)) e in
        let jobs = ap length e' in
        omega (
          arith,
          was,
          jobs,
          v.one_each,
          length-append jb (job ∷ ja),
          length-append jb ja,
          busy-selecting before after,
          busy-broadcasting before after b,
        );
    single = All-remove IsSingle jb ja job (subst (All IsSingle) e' v.single);
  }

in_flight-le :
    (n : ℕ) (jobs : List Job)
    → All (λ (job : Job). calls_of n job.calls ≤ 1) jobs
    → in_flight n jobs ≤ length jobs
in_flight-le n [] h = omega arith
in_flight-le n (job ∷ jobs) h = omega (arith, h.0, in_flight-le n jobs h.1)

module _ (w : Services) (m : RelayManager) (now : ℕ) (s : System)
    (reached : Reachable w m now s) where
  -- Whatever the goroutines do, no more than 64 bundles are being broadcast at a time, each by a worker
  -- of its own; and no client has more than 64 calls of Broadcast that have not returned. The warmup
  -- requests are none of these.
  pub in_flight_bounds :
      (n : ℕ)
      → (length s.jobs ≡ length (busy s.server.workers))
        × (length s.jobs ≤ worker_count)
        × (in_flight n s.jobs ≤ worker_count)
  unfolding start_system
  in_flight_bounds n =
      let manned : Manned n s =
        Reachable-keep w m (Manned n) now (record { one_each = refl; single = tt })
          (Step-Manned w m n) reached in
      let sound = Reachable-Sound s.server (Reachable-server w m reached) in
      (
        manned.one_each,
        omega (arith, manned.one_each, sound.staffed, busy-le s.server.workers),
        omega (
          arith,
          manned.one_each,
          sound.staffed,
          busy-le s.server.workers,
          in_flight-le n s.jobs manned.single,
        ),
      )

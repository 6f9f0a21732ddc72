-- ===== src/Server/Balance.antt =====
-- Where the received bundles are.
use bundle_broadcaster.Common.{
  [], ◌∷◌, ◌++◌, List, Bool, ℕ, ◌+◌, ◌≡◌, ◌≤◌, ◌∙◌, ap, refl, arith, length, length-append, keep,
  keep-append,
}
use bundle_broadcaster.Bundle.{IncomingBundle}
use bundle_broadcaster.Server.Steps.{
  Step, connects, leaves, receives, offers, takes, finishes, quits, runs_out, sets_closed, cancels,
  closes_queue, Reachable, Steps-keep,
}
use bundle_broadcaster.Server.State.{
  Handler, reading, offering, WsServer, receive, offer, Worker, selecting, broadcasting, returned,
  start_server, take, worker_count, queue_capacity,
}

-- The bundles that pass a test.
abbrev pub count : (IncomingBundle → Bool) → List IncomingBundle → ℕ
count p xs = length (keep p xs)

-- The bundles that the connections are about to send to the queue.
abbrev pub offered : List Handler → List IncomingBundle
offered [] = []
offered (reading ∷ hs) = offered hs
offered (offering b ∷ hs) = b ∷ offered hs

module _ (p : IncomingBundle → Bool) where
  count-append : (xs ys : List IncomingBundle) → count p (xs ++ ys) ≡ count p xs + count p ys
  count-append xs ys = rw (keep-append p xs ys) (length-append (keep p xs) (keep p ys))

  -- How many a connection is about to send.
  abbrev one : Handler → ℕ
  one reading = 0
  one (offering b) = count p (b ∷ [])

  count-offered :
      (before after : List Handler) (h : Handler)
      → count p (offered (before ++ (h ∷ after))) ≡ one h + count p (offered (before ++ after))
  count-offered [] after reading = ground arith
  count-offered [] after (offering b) = ground arith
  count-offered (reading ∷ hs) after h = count-offered hs after h
  count-offered (offering b ∷ hs) after h = ground (arith, count-offered hs after h)

  -- Every received bundle is with a connection or in the queue, or was started, or dropped, or its send has
  -- panicked.
  abbrev pub Balanced : WsServer → Type 0
  Balanced s =
      count p s.received
      ≡ count p (offered s.handlers)
        + count p s.queue
        + count p s.started
        + count p s.dropped
        + count p s.lost

  receive-Balanced :
      (s : WsServer) (before after : List Handler) (b : IncomingBundle)
      → s.handlers ≡ before ++ (reading ∷ after)
      → Balanced s
      → Balanced (receive s before after b)
  unfolding receive
  receive-Balanced s before after b e h =
      let was : count p (offered s.handlers) ≡ 0 + count p (offered (before ++ after)) =
        rw e (count-offered before after reading) in
      ground
        (arith, was, count-offered before after reading, count-offered before after (offering b))

  offer-Balanced :
      (s : WsServer) (before after : List Handler) (b : IncomingBundle)
      → s.handlers ≡ before ++ (offering b ∷ after)
      → Balanced s
      → Balanced (offer s before after b)
  unfolding offer
  offer-Balanced s before after b e h =
      let was : count p (offered s.handlers)
          ≡ one (offering b) + count p (offered (before ++ after)) =
        rw e (count-offered before after (offering b)) in
      ground (arith, was, count-offered before after reading, count-append s.queue (b ∷ []))

-- `balanced` speaks of every test, so of the list of received bundles up to its order.
pub record Sound (s : WsServer) : Type 0 where
  pub balanced : (p : IncomingBundle → Bool) → Balanced p s
  pub bounded : length s.queue ≤ queue_capacity
  pub staffed : length s.workers ≡ worker_count

length-set_worker :
    (before after : List Worker) (w v : Worker)
    → length (before ++ (w ∷ after)) ≡ length (before ++ (v ∷ after))
length-set_worker before after w v =
    ground (arith, length-append before (w ∷ after), length-append before (v ∷ after))

receive-fields :
    (s : WsServer) (before after : List Handler) (b : IncomingBundle)
    → ((receive s before after b).queue ≡ s.queue)
      × ((receive s before after b).workers ≡ s.workers)
unfolding receive
receive-fields s before after b = ground arith

offer-fields :
    (s : WsServer) (before after : List Handler) (b : IncomingBundle)
    → length s.queue ≤ queue_capacity
    → (length (offer s before after b).queue ≤ queue_capacity)
      × ((offer s before after b).workers ≡ s.workers)
unfolding offer
offer-fields s before after b h = ground (arith, length-append s.queue (b ∷ []))

take-Balanced :
    (p : IncomingBundle → Bool) (s : WsServer) (before after : List Worker) (b : IncomingBundle)
    (rest : List IncomingBundle)
    → s.queue ≡ b ∷ rest
    → Balanced p s
    → Balanced p (take s before after b rest)
unfolding take
take-Balanced p s before after b rest e h =
    let was : count p s.queue ≡ count p (b ∷ rest) = ap (count p) e in ground (arith, was)

leaves-Balanced :
    (p : IncomingBundle → Bool) (s : WsServer) (before after : List Handler)
    → s.handlers ≡ before ++ (reading ∷ after)
    → Balanced p s
    → Balanced p (record s { handlers = before ++ after })
leaves-Balanced p s before after e h =
    let was : count p (offered s.handlers) ≡ 0 + count p (offered (before ++ after)) =
      rw e (count-offered p before after reading) in
    ground (arith, was)

Step-Sound : (s t : WsServer) → Step s t → Sound s → Sound t
unfolding take
Step-Sound s t (connects) v = record {
  balanced = v.balanced;
  bounded = v.bounded;
  staffed = v.staffed;
}
Step-Sound s t (leaves before after e) v = record {
  balanced = λ p. leaves-Balanced p s before after e (v.balanced p);
  bounded = v.bounded;
  staffed = v.staffed;
}
Step-Sound s t (receives before after b e) v = record {
  balanced = λ p. receive-Balanced p s before after b e (v.balanced p);
  bounded = rw ((receive-fields s before after b).0) v.bounded;
  staffed = rw ((receive-fields s before after b).1) v.staffed;
}
Step-Sound s t (offers before after b e) v = record {
  balanced = λ p. offer-Balanced p s before after b e (v.balanced p);
  bounded = (offer-fields s before after b v.bounded).0;
  staffed = rw ((offer-fields s before after b v.bounded).1) v.staffed;
}
Step-Sound s t (takes before after e b rest q) v = record {
  balanced = λ p. take-Balanced p s before after b rest q (v.balanced p);
  bounded = ground (arith, ap (λ xs. length xs) q, v.bounded);
  staffed = length-set_worker before after (broadcasting b) selecting ∙ (rw e at v.staffed);
}
Step-Sound s t (finishes before after b e) v = record {
  balanced = v.balanced;
  bounded = v.bounded;
  staffed = length-set_worker before after selecting (broadcasting b) ∙ (rw e at v.staffed);
}
Step-Sound s t (quits d before after e) v = record {
  balanced = v.balanced;
  bounded = v.bounded;
  staffed = length-set_worker before after returned selecting ∙ (rw e at v.staffed);
}
Step-Sound s t (runs_out d q before after e) v = record {
  balanced = v.balanced;
  bounded = v.bounded;
  staffed = length-set_worker before after returned selecting ∙ (rw e at v.staffed);
}
Step-Sound s t (sets_closed d) v = record {
  balanced = v.balanced;
  bounded = v.bounded;
  staffed = v.staffed;
}
Step-Sound s t (cancels d e) v = record {
  balanced = v.balanced;
  bounded = v.bounded;
  staffed = v.staffed;
}
Step-Sound s t (closes_queue d e) v = record {
  balanced = v.balanced;
  bounded = v.bounded;
  staffed = v.staffed;
}

-- Whatever the goroutines do and in whatever order, each received bundle is in just one place: with
-- the connection that read it, in the queue, given to a broadcast once, dropped with a log entry, or
-- lost by a panic of its connection in the send to the queue.
-- The queue never holds more than 4096 bundles, and there are 64 workers, returned ones included.
pub Reachable-Sound : (s : WsServer) → Reachable s → Sound s
unfolding start_server
Reachable-Sound s steps =
    Steps-keep Sound Step-Sound steps
      (record { balanced = λ p. refl; bounded = omega arith; staffed = refl })

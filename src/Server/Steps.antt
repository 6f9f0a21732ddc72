-- ===== src/Server/Steps.antt =====
-- The goroutines of ws_server.go, one atomic step at a time and in any order.
use bundle_broadcaster.Bundle.{IncomingBundle}
use bundle_broadcaster.Common.{true, false, List, [], ◌∷◌, ◌++◌, ◌≡◌}
use bundle_broadcaster.Server.State.{
  Handler, reading, offering, Worker, selecting, broadcasting, returned, WsServer, start_server,
  receive, offer, take,
}

-- A step of the running process. A message that is no JSON of a bundle changes nothing, and makes no
-- step.
pub data Step (s : WsServer) : WsServer → Type 0 where
  -- Upgrade gives a connection.
  connects : Step s (record s { handlers = reading ∷ s.handlers })
  -- ReadMessage fails, and HandleWS returns.
  leaves :
      (before after : List Handler)
      → s.handlers ≡ before ++ (reading ∷ after)
      → Step s (record s { handlers = before ++ after })
  receives :
      (before after : List Handler) (b : IncomingBundle)
      → s.handlers ≡ before ++ (reading ∷ after)
      → Step s (receive s before after b)
  offers :
      (before after : List Handler) (b : IncomingBundle)
      → s.handlers ≡ before ++ (offering b ∷ after)
      → Step s (offer s before after b)
  -- The case of the queue, which may be chosen after ctx is done, too.
  takes :
      (before after : List Worker)
      → s.workers ≡ before ++ (selecting ∷ after)
      → (b : IncomingBundle) (rest : List IncomingBundle) → s.queue ≡ b ∷ rest
      → Step s (take s before after b rest)
  finishes :
      (before after : List Worker) (b : IncomingBundle)
      → s.workers ≡ before ++ (broadcasting b ∷ after)
      → Step s (record s { workers = before ++ (selecting ∷ after) })
  -- The case of ctx.Done.
  quits :
      s.cancelled ≡ true
      → (before after : List Worker) → s.workers ≡ before ++ (selecting ∷ after)
      → Step s (record s { workers = before ++ (returned ∷ after) })
  -- The queue is closed and empty.
  runs_out :
      s.queue_closed ≡ true
      → s.queue ≡ []
      → (before after : List Worker) → s.workers ≡ before ++ (selecting ∷ after)
      → Step s (record s { workers = before ++ (returned ∷ after) })
  -- The three statements at the head of Shutdown, which is called once.
  sets_closed : s.closed ≡ false → Step s (record s { closed = true })
  cancels : s.closed ≡ true → s.cancelled ≡ false → Step s (record s { cancelled = true })
  closes_queue :
      s.cancelled ≡ true → s.queue_closed ≡ false → Step s (record s { queue_closed = true })

pub data Steps (s : WsServer) : WsServer → Type 0 where
  here : Steps s s
  next : {t u : WsServer} → Steps s t → Step t u → Steps s u

-- What may come about after Start.
abbrev pub Reachable : WsServer → Type 0
Reachable s = Steps start_server s

-- What a property needs to hold after any steps: it is kept by each.
pub Steps-keep :
    (P : WsServer → Type 0)
    → ((s t : WsServer) → Step s t → P s → P t)
    → {s t : WsServer} → Steps s t
    → P s
    → P t
Steps-keep P kept here p = p
Steps-keep P kept (next steps step) p = kept _ _ step (Steps-keep P kept steps p)

-- ===== src/Server/State.antt =====
-- The state of WSServer, and what its goroutines do to it.
use bundle_broadcaster.Bundle.{IncomingBundle}
use bundle_broadcaster.Common.{
  ℕ, Bool, false, List, [], ◌∷◌, ◌++◌, length, replicate, ltb, if◌then◌else◌,
}

abbrev pub worker_count : ℕ
worker_count = 64

abbrev pub queue_capacity : ℕ
queue_capacity = 4096

-- The loop of HandleWS for one connection: it reads the next message, or it has read that `closed` is
-- not set and is about to send a bundle to the queue.
pub data Handler : Type 0 where
  reading : Handler
  offering : IncomingBundle → Handler

-- The loop of a worker: it selects, it is in manager.Broadcast, or it has returned.
pub data Worker : Type 0 where
  selecting : Worker
  broadcasting : IncomingBundle → Worker
  returned : Worker

-- `received` are the bundles that BundleReceivedTotal counts, `started` those given to
-- manager.Broadcast and `dropped` those that the log says are dropped, each the latest first.
-- `lost` are those whose send has panicked.
pub record WsServer : Type 0 where
  pub queue : List IncomingBundle
  pub queue_closed : Bool
  pub closed : Bool
  pub cancelled : Bool
  pub handlers : List Handler
  pub workers : List Worker
  pub received : List IncomingBundle
  pub started : List IncomingBundle
  pub dropped : List IncomingBundle
  pub lost : List IncomingBundle

-- NewWSServer and Start.
unfoldable pub start_server : WsServer
start_server = record {
  queue = [];
  queue_closed = false;
  closed = false;
  cancelled = false;
  handlers = [];
  workers = replicate worker_count selecting;
  received = [];
  started = [];
  dropped = [];
  lost = [];
}

module _ (s : WsServer) (before after : List Handler) where
  abbrev pub set_handler : Handler → List Handler
  set_handler h = before ++ (h ∷ after)

  -- HandleWS from a valid message to the test of `closed`.
  unfoldable pub receive : IncomingBundle → WsServer
  receive b =
      let s' = record s { received = b ∷ s.received } in
      if s.closed
      then record s' { handlers = set_handler reading; dropped = b ∷ s.dropped }
      else record s' { handlers = set_handler (offering b) }

  -- The select of HandleWS. A send on a closed channel panics; net/http, which has called the handler,
  -- recovers and logs the panic of a handler, so that only the connection ends.
  unfoldable pub offer : IncomingBundle → WsServer
  offer b =
      if s.queue_closed
      then record s { handlers = before ++ after; lost = b ∷ s.lost }
      else if ltb (length s.queue) queue_capacity
      then record s { handlers = set_handler reading; queue = s.queue ++ (b ∷ []) }
      else record s { handlers = set_handler reading; dropped = b ∷ s.dropped }

module _ (s : WsServer) (before after : List Worker) where
  abbrev pub set_worker : Worker → List Worker
  set_worker w = before ++ (w ∷ after)

  -- A worker takes the first bundle of the queue.
  unfoldable pub take : IncomingBundle → List IncomingBundle → WsServer
  take b rest = record s {
    workers = set_worker (broadcasting b);
    queue = rest;
    started = b ∷ s.started;
  }

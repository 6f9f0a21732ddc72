-- ===== src/Server/Stopping.antt =====
-- How the workers end after Shutdown, and the bundles that they leave behind.
use bundle_broadcaster.Common.{[], ◌∷◌, ◌++◌, List, ◌≡◌, refl, true, All, All-append}
use mathlib.Core.List.{append_assoc, append-nil}
use bundle_broadcaster.Server.State.{Worker, selecting, broadcasting, returned, WsServer}
use bundle_broadcaster.Server.Steps.{finishes, quits, Steps, here, next}

Steps-trans : {s t u : WsServer} → Steps s t → Steps t u → Steps s u
Steps-trans r here = r
Steps-trans r (next q step) = next (Steps-trans r q) step

abbrev pub HasReturned : Worker → Type 0
HasReturned w = w ≡ returned

-- The workers have returned, and nothing else has changed.
pub record Stopped (s t : WsServer) : Type 0 where
  pub steps : Steps s t
  pub all_returned : All HasReturned t.workers
  pub others : t ≡ record s { workers = t.workers }

module _ (s : WsServer) (cancelled : s.cancelled ≡ true) where
  abbrev manned : List Worker → WsServer
  manned ws = record s { workers = ws }

  one_more :
      (before after : List Worker)
      → before ++ (returned ∷ []) ++ after ≡ before ++ (returned ∷ after)
  one_more before after = append_assoc before (returned ∷ []) after

  quit_one :
      (before after : List Worker) (w : Worker)
      → Steps (manned (before ++ (w ∷ after))) (manned (before ++ (returned ∷ after)))
  quit_one before after selecting = next here (quits cancelled before after refl)
  quit_one before after (broadcasting b) =
      next (next here (finishes before after b refl)) (quits cancelled before after refl)
  quit_one before after returned = here

  quit_each :
      (before after : List Worker)
      → All HasReturned before
      → (ws : List Worker) × Steps (manned (before ++ after)) (manned ws) × All HasReturned ws
  quit_each before [] h = (before, rw (append-nil before) here, h)
  quit_each before (w ∷ after) h =
      let (ws, steps, all) =
        quit_each (before ++ (returned ∷ [])) after
          (All-append HasReturned before (returned ∷ []) h (refl, tt)) in
      (ws, Steps-trans (quit_one before after w) (rw (one_more before after) at steps), all)

-- Once the context is cancelled, the workers can all finish and return, whatever they were doing, so
-- that the wait of Shutdown ends; and they may do so with the queue as it is: every bundle in it then
-- stays there, neither broadcast nor logged as dropped.
pub shutdown_completes : (s : WsServer) → s.cancelled ≡ true → (t : WsServer) × Stopped s t
shutdown_completes s cancelled =
    let (ws, steps, all) = quit_each s cancelled [] s.workers tt in
    (record s { workers = ws }, record { steps = steps; all_returned = all; others = refl })

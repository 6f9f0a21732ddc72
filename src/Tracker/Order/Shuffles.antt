-- ===== src/Tracker/Order/Shuffles.antt =====
-- Between two ticks, the select of tracker.go may take the events of its two channels in any order.
use bundle_broadcaster.Common.{String, ℕ, List, [], ◌∷◌, ◌++◌, ◌≡◌, ◌∙◌, refl, sym, ap, map}
use bundle_broadcaster.Tracker.Events.{HashEvent, SimEvent}
use bundle_broadcaster.Tracker.Loop.{
  Disk, TrackerState, Received, hash_event, sim_event, on_hash, on_sim, on_received, run,
}
use bundle_broadcaster.Tracker.Order.{on_sim-on_hash}

-- What comes out of a channel, with the times that are read when it does.
abbrev pub from_hash_ch : HashEvent × ℕ × ℕ → Received
from_hash_ch (e, stamped, received) = hash_event e stamped received

abbrev pub from_sim_ch : SimEvent × ℕ → Received
from_sim_ch (s, now) = sim_event s now

-- The rounds `rs` take all of both channels, each in its own order.
pub data Shuffle : List (HashEvent × ℕ × ℕ) → List (SimEvent × ℕ) → List Received → Type 0 where
  none_left : Shuffle [] [] []
  takes_hash :
      {hs : List (HashEvent × ℕ × ℕ)} {ss : List (SimEvent × ℕ)} {rs : List Received}
      (h : HashEvent × ℕ × ℕ)
      → Shuffle hs ss rs
      → Shuffle (h ∷ hs) ss (from_hash_ch h ∷ rs)
  takes_sim :
      {hs : List (HashEvent × ℕ × ℕ)} {ss : List (SimEvent × ℕ)} {rs : List Received}
      (s : SimEvent × ℕ)
      → Shuffle hs ss rs
      → Shuffle hs (s ∷ ss) (from_sim_ch s ∷ rs)

module _ (disk : Disk) (dir : String) where
  -- A simulation result may wait until after hash events.
  run-sim_later :
      (s : SimEvent × ℕ) (hs : List (HashEvent × ℕ × ℕ)) (rs : List Received) (st : TrackerState)
      → run disk dir (on_sim s.0 s.1 st) (map from_hash_ch hs ++ rs)
        ≡ run disk dir st (map from_hash_ch hs ++ (from_sim_ch s ∷ rs))
  unfolding run on_received
  run-sim_later s [] rs st = refl
  run-sim_later s ((e, stamped, received) ∷ hs) rs st =
      ap (λ x. run disk dir x (map from_hash_ch hs ++ rs))
        (sym (on_sim-on_hash e stamped received s.0 s.1 st))
      ∙ run-sim_later s hs rs (on_hash e stamped received st)

  -- In whatever order the goroutine takes the hash events and the simulation results that are in its
  -- channels, each channel's in its own order and at the same times, it comes to the same state: the
  -- one that it comes to if it takes all hash events first. So it writes the same records.
  pub run-Shuffle :
      {hs : List (HashEvent × ℕ × ℕ)} {ss : List (SimEvent × ℕ)} {rs : List Received}
      (st : TrackerState)
      → Shuffle hs ss rs
      → run disk dir st rs ≡ run disk dir st (map from_hash_ch hs ++ map from_sim_ch ss)
  unfolding run on_received
  run-Shuffle st none_left = refl
  run-Shuffle st (takes_hash (e, stamped, received) mix) =
      run-Shuffle (on_hash e stamped received st) mix
  run-Shuffle {hs} {ss} st (takes_sim s mix) =
      run-Shuffle (on_sim s.0 s.1 st) mix ∙ run-sim_later s hs _ st

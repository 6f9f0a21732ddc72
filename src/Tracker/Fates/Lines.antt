-- ===== src/Tracker/Fates/Lines.antt =====
-- Every line of the tracker's files is accounted for.
use mathlib.Core.List.Permᴰ
use bundle_broadcaster.Common.{
  String, List, [], ◌∷◌, ◌++◌, inl, inr, refl, map, ℕ, lookup, insert, Drawn, drawn_none,
  draws_last, Drawn-Comes, Comes-append_left, moves, in_turn,
}
use bundle_broadcaster.Tracker.Events.{HashEvent}
use bundle_broadcaster.Tracker.Records.{PendingEntry, enrich_if_cached, new_record}
use bundle_broadcaster.Tracker.Loop.{Disk, TrackerState, or_empty, on_hash, on_sim, start_state}
use bundle_broadcaster.Tracker.Process.{Process, History}
use bundle_broadcaster.Tracker.Fates.Received.{received, History-keep}
use bundle_broadcaster.Tracker.Fates.Draws.{
  Trace, pending_traces, traces, Stems, insert-Becomes, insert_bundle-Becomes, on_sim-Becomes,
}
use bundle_broadcaster.Tracker.Fates.Draws.Flushing.{flush-Becomes}

module _ (disk : Disk) (dir : String) where
  abbrev HasEvents : List (HashEvent × ℕ) → TrackerState → Type 0
  HasEvents es st = Drawn (Stems disk dir) (traces st) es

  start-HasEvents : HasEvents [] start_state
  unfolding start_state
  start-HasEvents = drawn_none

  on_hash-HasEvents :
      (e : HashEvent) (a b : ℕ) (st : TrackerState) (es : List (HashEvent × ℕ))
      → HasEvents es st
      → HasEvents (es ++ ((e, a) ∷ [])) (on_hash e a b st)
  unfolding on_hash
  on_hash-HasEvents e a b st es h =
      let o = lookup e.bundle_id st.sim_cache in
      let put : PendingEntry = record {
        bundle = enrich_if_cached o (new_record e a);
        received_at = b;
      } in
      let new : Trace = inr put.bundle in
      let old = or_empty (lookup e.bundle_id st.pending) in
      Drawn-Comes (Stems disk dir)
        (in_turn
          (moves (Permᴰ.symm (Permᴰ.middle new (map inl st.lines) (pending_traces st.pending))))
          (Comes-append_left (Stems disk dir) (map inl st.lines) (
            insert_bundle-Becomes disk dir (new ∷ []) e.bundle_id (insert e.builder put old)
              st.pending (insert-Becomes disk dir e.builder put old))))
        (draws_last (Stems disk dir) (e, a) (o, refl) h)

  -- Nothing is made up and nothing is written twice. After any history of the tracker, all that its calls
  -- of Write have put into the files, and all the pending records, have each a hash event of their own
  -- among those that the goroutine has received, so that no event has two of them. What is in a file is
  -- the line of its event, the record with a simulation result copied into it or without one, marshalled,
  -- in the file of the builder that it names, or the part of that line that a failing Write has left there.
  pub lines_have_events :
      {p : Process} (h : History disk dir p)
      → Drawn (Stems disk dir) (traces p.state) (received disk dir h)
  unfolding on_sim
  lines_have_events h =
      History-keep disk dir HasEvents
        (record {
          start = start-HasEvents;
          hashes = on_hash-HasEvents;
          sims = λ e now st es d.
              Drawn-Comes (Stems disk dir)
                (Comes-append_left (Stems disk dir) (map inl st.lines)
                  (on_sim-Becomes disk dir e now st))
                d;
          flushes = λ force now later st es d.
              Drawn-Comes (Stems disk dir) (flush-Becomes disk dir force now later st) d;
        })
        h

-- ===== src/Tracker/Shutdown.antt =====
-- What holds of the tracker whatever its callers do, and when its goroutine has ended.
use bundle_broadcaster.Common.{
  ℕ, true, String, List, [], ◌∷◌, ◌≡◌, ◌≤◌, ◌∙◌, refl, ap, arith, length, length-append, keep, inl,
  inr, Bool-cases, ltb, false,
}
use bundle_broadcaster.Tracker.Events.{HashEvent, SimEvent}
use bundle_broadcaster.Tracker.Loop.{
  Disk, TrackerState, start_state, hash_event, sim_event, ticked, stop, is_waiting,
}
use bundle_broadcaster.Tracker.Flush.{Tagged, entries, stays}
use bundle_broadcaster.Tracker.Writing.{flush-splits}
use bundle_broadcaster.Tracker.Invariant.{Inv, on_received-Inv, flush-Inv, start_state-Inv}
use bundle_broadcaster.Tracker.Process.{
  Process, new_tracker, record_hash, record_sim, channel_capacity, Event, records_hash, records_sim,
  stops, takes_hash, takes_sim, ticks, ends, History, begins, goes_on,
}

-- No channel holds more than it may, the maps are as they should be, and nothing is pending once the
-- goroutine has ended.
pub record Kept (p : Process) : Type 0 where
  pub hashes : length p.hash_ch ≤ channel_capacity
  pub sims : length p.sim_ch ≤ channel_capacity
  pub inv : Inv p.state
  pub flushed : p.has_ended ≡ true → entries p.state.pending ≡ []

keep_none : (now : ℕ) (ts : List Tagged) → keep (stays true now) ts ≡ []
unfolding is_waiting
keep_none now [] = refl
keep_none now (t ∷ ts) = keep_none now ts

module _ (disk : Disk) (dir : String) where
  entries-stop :
      (now later : ℕ) (st : TrackerState) → entries (stop disk dir now later st).pending ≡ []
  unfolding stop
  entries-stop now later st =
      (flush-splits disk dir true now later st).0 ∙ keep_none now (entries st.pending)

  stop-Inv : (now later : ℕ) (st : TrackerState) → Inv st → Inv (stop disk dir now later st)
  unfolding stop
  stop-Inv now later st = flush-Inv disk dir true now later st

  record_hash-Kept : (e : HashEvent) (p : Process) → Kept p → Kept (record_hash e p)
  unfolding record_hash
  record_hash-Kept e p k = elim (Bool-cases (ltb (length p.hash_ch) channel_capacity)) [
    | inl room ↦ rw room (record {
      hashes = ground (arith, room, length-append p.hash_ch (e ∷ []));
      sims = k.sims;
      inv = k.inv;
      flushed = k.flushed;
    })
    | inr full ↦ rw full k
  ]

  record_sim-Kept : (e : SimEvent) (p : Process) → Kept p → Kept (record_sim e p)
  unfolding record_sim
  record_sim-Kept e p k = elim (Bool-cases (ltb (length p.sim_ch) channel_capacity)) [
    | inl room ↦ rw room (record {
      hashes = k.hashes;
      sims = ground (arith, room, length-append p.sim_ch (e ∷ []));
      inv = k.inv;
      flushed = k.flushed;
    })
    | inr full ↦ rw full k
  ]

  Event-Kept : {p q : Process} → Event disk dir p q → Kept p → Kept q
  Event-Kept {p = p} (records_hash e) k = record_hash-Kept e p k
  Event-Kept {p = p} (records_sim e) k = record_sim-Kept e p k
  Event-Kept (stops d) k = record {
    hashes = k.hashes;
    sims = k.sims;
    inv = k.inv;
    flushed = k.flushed;
  }
  Event-Kept {p = p} (takes_hash runs e rest h stamped received) k = record {
    hashes = ground (arith, ap (λ es. length es) h, k.hashes);
    sims = k.sims;
    inv = on_received-Inv disk dir p.state (hash_event e stamped received) k.inv;
    flushed = λ ended. cc (ended, runs);
  }
  Event-Kept {p = p} (takes_sim runs e rest h now) k = record {
    hashes = k.hashes;
    sims = ground (arith, ap (λ es. length es) h, k.sims);
    inv = on_received-Inv disk dir p.state (sim_event e now) k.inv;
    flushed = λ ended. cc (ended, runs);
  }
  Event-Kept {p = p} (ticks runs now later) k = record {
    hashes = k.hashes;
    sims = k.sims;
    inv = on_received-Inv disk dir p.state (ticked now later) k.inv;
    flushed = λ ended. cc (ended, runs);
  }
  Event-Kept {p = p} (ends runs done now later) k = record {
    hashes = k.hashes;
    sims = k.sims;
    inv = stop-Inv now later p.state k.inv;
    flushed = λ _. entries-stop now later p.state;
  }

  -- Whatever is recorded and received, in any order, and whenever Stop is called: no channel holds more
  -- than 1024 events, every pending entry is filed under its own bundle and builder with the cached
  -- simulation in it, and once the goroutine has ended no entry is pending any more.
  pub History-Kept : (p : Process) → History disk dir p → Kept p
  unfolding new_tracker start_state
  History-Kept p begins = record {
    hashes = omega arith;
    sims = omega arith;
    inv = start_state-Inv;
    flushed = λ h. refl;
  }
  History-Kept p (goes_on h e) = Event-Kept e (History-Kept _ h)

  -- Stop may lose bundle hashes: at any point before it is called, while the goroutine runs, there is a
  -- history that goes on with Stop and the end of the goroutine while every event in its channels stays
  -- there, and only what was pending before is flushed.
  pub stop_may_lose :
      (p : Process)
      → History disk dir p
      → p.is_done ≡ false
      → p.has_ended ≡ false
      → (q : Process) × History disk dir q
        × (q.has_ended ≡ true)
        × (q.hash_ch ≡ p.hash_ch)
        × (q.sim_ch ≡ p.sim_ch)
        × (q.state ≡ stop disk dir 0 0 p.state)
  stop_may_lose p h open_yet runs =
      let stopping : Process = record p { is_done = true } in
      (
        record stopping { has_ended = true; state = stop disk dir 0 0 p.state },
        goes_on (goes_on h (stops open_yet)) (ends runs refl 0 0),
        refl,
        refl,
        refl,
        refl,
      )

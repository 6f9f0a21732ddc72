-- ===== src/Tracker/Fates/Received.antt =====
-- The hash events that the callers of RecordHash hand to the tracker, and those that its goroutine has
-- received.
use mathlib.Core.List.{append_assoc, append-nil, map-append}
use bundle_broadcaster.Common.{
  [], ◌∷◌, List, ◌≡◌, Bool, true, false, if◌then◌else◌, ◌++◌, refl, arith, ap, inl, String, inr,
  Bool-cases, ℕ, ◌∙◌, subst, sym, map, length, ltb,
}
use bundle_broadcaster.Tracker.Events.{HashEvent, SimEvent}
use bundle_broadcaster.Tracker.Loop.{
  Disk, TrackerState, on_hash, on_sim, flush, on_received, stop, start_state,
}
use bundle_broadcaster.Tracker.Process.{
  Process, new_tracker, record_hash, record_sim, channel_capacity, records_hash, records_sim, stops,
  takes_hash, takes_sim, ticks, ends, History, begins, goes_on,
}

record_hash-state : (e : HashEvent) (p : Process) → (record_hash e p).state ≡ p.state
unfolding record_hash
record_hash-state e p = ground arith

record_sim-others :
    (e : SimEvent) (p : Process)
    → ((record_sim e p).state ≡ p.state) × ((record_sim e p).hash_ch ≡ p.hash_ch)
unfolding record_sim
record_sim-others e p = ground arith

module _ (disk : Disk) (dir : String) where
  -- The hash events that a channel with room has taken from the callers, in order.
  abbrev pub accepted : {p : Process} → History disk dir p → List HashEvent
  accepted begins = []
  accepted (goes_on {p} h (records_hash e)) =
      accepted h ++ (if ltb (length p.hash_ch) channel_capacity then e ∷ [] else [])
  accepted (goes_on h (records_sim e)) = accepted h
  accepted (goes_on h (stops open_yet)) = accepted h
  accepted (goes_on h (takes_hash runs e rest waits stamped received)) = accepted h
  accepted (goes_on h (takes_sim runs e rest waits now)) = accepted h
  accepted (goes_on h (ticks runs now later)) = accepted h
  accepted (goes_on h (ends runs done now later)) = accepted h

  -- Those that the goroutine has received from the channel, each with the time of its stamp, in order.
  abbrev pub received : {p : Process} → History disk dir p → List (HashEvent × ℕ)
  received begins = []
  received (goes_on h (records_hash e)) = received h
  received (goes_on h (records_sim e)) = received h
  received (goes_on h (stops open_yet)) = received h
  received (goes_on h (takes_hash runs e rest waits stamped at)) = received h ++ ((e, stamped) ∷ [])
  received (goes_on h (takes_sim runs e rest waits now)) = received h
  received (goes_on h (ticks runs now later)) = received h
  received (goes_on h (ends runs done now later)) = received h

  -- What holds at the start and is kept by the rounds of the goroutine, of the events received so far and
  -- its variables.
  pub record Keeps (P : List (HashEvent × ℕ) → TrackerState → Type 0) : Type 0 where
    pub start : P [] start_state
    pub hashes :
        (e : HashEvent) (a b : ℕ) (st : TrackerState) (es : List (HashEvent × ℕ))
        → P es st
        → P (es ++ ((e, a) ∷ [])) (on_hash e a b st)
    pub sims :
        (e : SimEvent) (now : ℕ) (st : TrackerState) (es : List (HashEvent × ℕ))
        → P es st
        → P es (on_sim e now st)
    pub flushes :
        (force : Bool) (now later : ℕ) (st : TrackerState) (es : List (HashEvent × ℕ))
        → P es st
        → P es (flush disk dir force now later st)

  pub History-keep :
      (P : List (HashEvent × ℕ) → TrackerState → Type 0)
      → Keeps P
      → {p : Process} (h : History disk dir p) → P (received h) p.state
  unfolding new_tracker on_received stop
  History-keep P k begins = k.start
  History-keep P k (goes_on {p} h (records_hash e)) =
      subst (P (received h)) (sym (record_hash-state e p)) (History-keep P k h)
  History-keep P k (goes_on {p} h (records_sim e)) =
      subst (P (received h)) (sym (record_sim-others e p).0) (History-keep P k h)
  History-keep P k (goes_on h (stops open_yet)) = History-keep P k h
  History-keep P k (goes_on {p} h (takes_hash runs e rest waits stamped at)) =
      k.hashes e stamped at p.state (received h) (History-keep P k h)
  History-keep P k (goes_on {p} h (takes_sim runs e rest waits now)) =
      k.sims e now p.state (received h) (History-keep P k h)
  History-keep P k (goes_on {p} h (ticks runs now later)) =
      k.flushes false now later p.state (received h) (History-keep P k h)
  History-keep P k (goes_on {p} h (ends runs done now later)) =
      k.flushes true now later p.state (received h) (History-keep P k h)

  pub History-received :
      {p : Process} (h : History disk dir p) → accepted h ≡ map (λ r. r.0) (received h) ++ p.hash_ch
  unfolding new_tracker record_hash record_sim
  History-received begins = refl
  History-received (goes_on {p} h (records_hash e)) =
      elim (Bool-cases (ltb (length p.hash_ch) channel_capacity)) [
        | inl room ↦
            rw (room, record_hash)
              (ap (λ es. es ++ (e ∷ [])) (History-received h)
                ∙ append_assoc (map (λ r. r.0) (received h)) p.hash_ch (e ∷ []))
        | inr full ↦ rw (full, record_hash) (append-nil (accepted h) ∙ History-received h)
      ]
  History-received (goes_on {p} h (records_sim e)) =
      History-received h
      ∙ ap (λ es. map (λ r. r.0) (received h) ++ es) (sym (record_sim-others e p).1)
  History-received (goes_on h (stops open_yet)) = History-received h
  History-received (goes_on h (takes_hash runs e rest waits stamped at)) =
      History-received h
      ∙ ap (λ es. map (λ r. r.0) (received h) ++ es) waits
      ∙ sym (
          ap (λ es. es ++ rest) (map-append (λ r. r.0) (received h) ((e, stamped) ∷ []))
          ∙ append_assoc (map (λ r. r.0) (received h)) (e ∷ []) rest)
  History-received (goes_on h (takes_sim runs e rest waits now)) = History-received h
  History-received (goes_on h (ticks runs now later)) = History-received h
  History-received (goes_on h (ends runs done now later)) = History-received h

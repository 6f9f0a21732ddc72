-- ===== src/System/Recording/Lines.antt =====
-- Where the lines of the tracker's files come from, in the whole server.
use mathlib.Core.List.{Memᴰ}
use mathlib.Core.List.Memᴰ
use bundle_broadcaster.Common.{
  ℕ, String, List, [], ◌∷◌, ◌++◌, ◌≡◌, ap, ◌∙◌, subst, sym, refl, All, All-append, All-left, map,
  All-imp, Drawn-All, All-of_map, some, Bool-cases, inl, inr, length, ltb,
}
use bundle_broadcaster.Tracker.Events.{HashEvent}
use bundle_broadcaster.Tracker.Records.{BundleRecord}
use bundle_broadcaster.Tracker.Loop.{Disk}
use bundle_broadcaster.Tracker.Process.{
  Process, History, Event, records_hash, records_sim, stops, takes_hash, takes_sim, ticks, ends,
  begins, goes_on, channel_capacity,
}
use bundle_broadcaster.Tracker.Fates.{From}
use bundle_broadcaster.Tracker.Fates.Sources.{IsLeft}
use bundle_broadcaster.Tracker.Fates.Received.{accepted, History-received}
use bundle_broadcaster.Tracker.Fates.Draws.{pending_traces, Stems}
use bundle_broadcaster.Tracker.Fates.Lines.{lines_have_events}
use bundle_broadcaster.Relay.Client.{Services}
use bundle_broadcaster.Relay.Client.Recording.{recordings}
use bundle_broadcaster.Manager.Build.{RelayManager}
use bundle_broadcaster.System.State.{Notice}
use bundle_broadcaster.System.Interleaving
use bundle_broadcaster.System.Recording.{
  Recorder, record_each, serves, tracks, IsElsewhere, Reachable, started, later,
}
use bundle_broadcaster.System.Recording.Events.{
  Origin, Origin-later, Step-notices, Reachable-AreFound, recordings-append,
}

All-mem :
    (P : HashEvent → Type 0) (es : List HashEvent) (e : HashEvent) → All P es → Memᴰ e es → P e
All-mem P [] e h m = absurd (Memᴰ.not-nil m)
All-mem P (x ∷ es) e h (Memᴰ.head same) = subst P (sym same) h.0
All-mem P (x ∷ es) e h (Memᴰ.tail m) = All-mem P es e h.1 m

module _ (disk : Disk) (dir : String) where
  abbrev pub history_of_records :
      (es : List HashEvent) {p : Process} → History disk dir p → History disk dir (record_each es p)
  history_of_records [] h = h
  history_of_records (e ∷ es) h = goes_on (history_of_records es h) (records_hash e)

  -- RecordHash accepts nothing but the events that it is given.
  accepted-record_each :
      (P : HashEvent → Type 0) (es : List HashEvent) {p : Process} (h : History disk dir p)
      → All P es
      → All P (accepted disk dir h)
      → All P (accepted disk dir (history_of_records es h))
  accepted-record_each P [] h mine old = old
  accepted-record_each P (e ∷ es) {p} h mine old =
      All-append P (accepted disk dir (history_of_records es h)) _
        (accepted-record_each P es h mine.1 old)
        (elim (Bool-cases (ltb (length (record_each es p).hash_ch) channel_capacity)) [
          | inl room ↦ rw room (mine.0, tt)
          | inr full ↦ rw full tt
        ])

  accepted_elsewhere :
      {p q : Process} (h : History disk dir p) (event : Event disk dir p q)
      → IsElsewhere disk dir event
      → accepted disk dir (goes_on h event) ≡ accepted disk dir h
  accepted_elsewhere h (records_hash e) never = absurd never
  accepted_elsewhere h (records_sim e) it = refl
  accepted_elsewhere h (stops open_yet) it = refl
  accepted_elsewhere h (takes_hash runs e rest waits stamped at) it = refl
  accepted_elsewhere h (takes_sim runs e rest waits now) it = refl
  accepted_elsewhere h (ticks runs now after) it = refl
  accepted_elsewhere h (ends runs done now after) it = refl

  module _ (w : Services) (m : RelayManager) where
    Reachable-system :
        {now : ℕ} {s : Recorder}
        → Reachable disk dir w m now s
        → Interleaving.Reachable w m now s.system
    Reachable-system started = Interleaving.started
    Reachable-system (later r (serves t step new same)) =
        Interleaving.later (Reachable-system r) step
    Reachable-system (later r (tracks q event it)) = Reachable-system r

    abbrev pub tracker_history :
        {now : ℕ} {s : Recorder} → Reachable disk dir w m now s → History disk dir s.tracker
    tracker_history started = begins
    tracker_history (later r (serves t step new same)) =
        history_of_records (recordings new) (tracker_history r)
    tracker_history (later r (tracks q event it)) = goes_on (tracker_history r) event

    accepted-Origin :
        {now : ℕ} {s : Recorder} (r : Reachable disk dir w m now s)
        → All (Origin w s.system.notices) (accepted disk dir (tracker_history r))
    accepted-Origin started = tt
    accepted-Origin (later {s} r (serves t step new same)) =
        let P : HashEvent → Type 0 = Origin w t.notices in
        let (more, after) = Step-notices w m step in
        let all_new : All P (recordings new ++ recordings s.system.effects) =
          subst (All P) (ap recordings same ∙ recordings-append new s.system.effects)
            (Reachable-AreFound w m (Interleaving.later (Reachable-system r) step)) in
        let old =
          All-imp _ P (accepted disk dir (tracker_history r))
            (λ e o.
              subst (λ ns. Origin w ns e) (sym after) (Origin-later w more s.system.notices e o))
            (accepted-Origin r) in
        accepted-record_each P (recordings new) (tracker_history r)
          (All-left P (recordings new) (recordings s.system.effects) all_new) old
    accepted-Origin (later {s} r (tracks q event it)) =
        subst (All (Origin w s.system.notices))
          (sym (accepted_elsewhere (tracker_history r) event it)) (accepted-Origin r)

    -- The text is the line, or a part of it, of a bundle hash that a call of Broadcast has brought, in the file of the
    -- builder that the record names.
    pub record HasAnswer (es : List Notice) (l : String × String) : Type 0 where
      pub event : HashEvent
      pub stamped : ℕ
      pub bundle : BundleRecord
      pub line : String
      pub origin : Origin w es event
      pub from : From event stamped bundle
      pub marshalled : disk.marshal bundle ≡ some line
      pub written : IsLeft disk dir bundle.builder line l

    -- In every state of the whole server with its tracker, however the goroutines run and whatever
    -- fails, all that the tracker's calls of Write have put into the tracking files is: the line of a
    -- bundle hash, its record with a simulation result copied into it or without one, marshalled, in the
    -- file of the builder that it names, or the part of such a line that a failing Write has left there;
    -- and for that hash some call of Broadcast has ended before, of that bundle with the client of that
    -- builder, whose relay is tracked and whose last answer had a status from 200 to 299 and named it.
    pub lines_have_answers :
        {now : ℕ} {s : Recorder}
        → Reachable disk dir w m now s
        → All (HasAnswer s.system.notices) s.tracker.state.lines
    lines_have_answers {s = s} reached =
        let h = tracker_history reached in
        let owned =
          All-left _ (map inl s.tracker.state.lines) (pending_traces s.tracker.state.pending)
            (Drawn-All (Stems disk dir) (lines_have_events disk dir h)) in
        All-imp _ _ s.tracker.state.lines
          (λ l ((e, stamped), m, (r, line, from, marshalled, left)). record {
            event = e;
            stamped = stamped;
            bundle = r;
            line = line;
            origin =
                All-mem (Origin w s.system.notices) (accepted disk dir h) e
                  (accepted-Origin reached)
                  (subst (λ es. Memᴰ e es) (sym (History-received disk dir h))
                    (Memᴰ.append_left s.tracker.hash_ch (Memᴰ.map (λ p. p.0) m)));
            from = from;
            marshalled = marshalled;
            written = left;
          })
          (All-of_map _ inl s.tracker.state.lines owned)

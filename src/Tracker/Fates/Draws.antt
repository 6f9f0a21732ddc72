-- ===== src/Tracker/Fates/Draws.antt =====
-- Each line and each pending record of the tracker has a hash event of its own.
pub mod Flushing
use mathlib.Core.List.{Permᴰ, append_assoc, append-nil, map-append}
use mathlib.Core.List.Permᴰ
use bundle_broadcaster.Common.{
  ◌⊎◌, inl, inr, [], ◌∷◌, String, List, ◌≡◌, Bool, ◌++◌, ◌+◌, refl, Bool-cases, Option-cases, ℕ,
  lookup, insert, none, some, Option, ◌==◌, subst, sym, ap, ◌∙◌, map, nonempty, if◌then◌else◌,
}
use bundle_broadcaster.Common.{
  Drawn, Comes, changes, drops, moves, in_turn, unchanged, drawn_none, draws_last, Drawn-Comes,
  Comes-append_left, Comes-append_right, perm_of_eq, four_parts,
}
use bundle_broadcaster.Tracker.Events.{HashEvent, SimEvent}
use bundle_broadcaster.Tracker.Records.{
  BundleRecord, PendingEntry, SimCacheEntry, enrich_if_cached, new_record, new_sim_entry,
}
use bundle_broadcaster.Tracker.Loop.{
  Disk, TrackerState, Builders, or_empty, on_hash, on_sim, flush, start_state, is_waiting,
  kept_builders, flushed_builders, kept_pending, flushed_pending, enrich_builders,
}
use bundle_broadcaster.Tracker.Writing.{
  logged, line_of, line_if_marshalled, files_with, has_file, write_records-lines,
}
use bundle_broadcaster.Tracker.Process.{Process, History}
use bundle_broadcaster.Tracker.Fates.{From, From-enrich, From-enrich_if_cached}
use bundle_broadcaster.Tracker.Fates.Received.{received, History-keep}
use bundle_broadcaster.Tracker.Fates.Sources.{IsLeft, left_by_write-IsLeft}

-- What the tracker has made of an event: a line of a file, or a pending record.
abbrev pub Trace : Type 0
Trace = (String × String) ⊎ BundleRecord

abbrev pub builder_traces : Builders → List Trace
builder_traces [] = []
builder_traces ((b, x) ∷ bs) = inr x.bundle ∷ builder_traces bs

abbrev pub pending_traces : List (String × Builders) → List Trace
pending_traces [] = []
pending_traces ((id, bs) ∷ p) = builder_traces bs ++ pending_traces p

abbrev pub traces : TrackerState → List Trace
traces st = map inl st.lines ++ pending_traces st.pending

module _ (disk : Disk) (dir : String) where
  -- The line, or the part of it that a failing Write has left, is that of the event's record, in the file
  -- of the builder that the record names; the pending record is the event's.
  abbrev pub Stems : Trace → HashEvent × ℕ → Type 0
  Stems (inl l) (e, stamped) =
      (r : BundleRecord) × (line : String) × From e stamped r
      × (disk.marshal r ≡ some line)
      × IsLeft disk dir r.builder line l
  Stems (inr r) (e, stamped) = From e stamped r

  abbrev pub Becomes : List Trace → List Trace → Type 0
  Becomes xs ys = Comes Stems xs ys

  pub insert-Becomes :
      (b : String) (x : PendingEntry) (bs : Builders)
      → Becomes (inr x.bundle ∷ builder_traces bs) (builder_traces (insert b x bs))
  unfolding insert
  insert-Becomes b x [] = unchanged Stems _
  insert-Becomes b x ((c, y) ∷ bs) = elim (Bool-cases (c == b)) [
    | inl same ↦ rw (same, insert) (changes (λ e r. r) (drops (unchanged Stems _)))
    | inr other ↦
        rw (other, insert)
          (in_turn (moves (Permᴰ.swap refl refl)) (changes (λ e r. r) (insert-Becomes b x bs)))
  ]

  -- An assignment to the builders of a bundle, which some new traces lead to.
  pub insert_bundle-Becomes :
      (new : List Trace) (id : String) (bs : Builders) (p : List (String × Builders))
      → Becomes (new ++ builder_traces (or_empty (lookup id p))) (builder_traces bs)
      → Becomes (new ++ pending_traces p) (pending_traces (insert id bs p))
  unfolding insert lookup
  insert_bundle-Becomes new id bs [] h =
      in_turn h (moves (perm_of_eq (sym (append-nil (builder_traces bs)))))
  insert_bundle-Becomes new id bs ((j, cs) ∷ p) h = elim (Bool-cases (j == id)) [
    | inl same ↦
        rw (same, insert)
          (in_turn
            (moves (perm_of_eq (sym (append_assoc new (builder_traces cs) (pending_traces p)))))
            (Comes-append_right Stems (pending_traces p) (rw (same, lookup) at h)))
    | inr other ↦
        rw (other, insert)
          (in_turn
            (moves (
              Permᴰ.trans
                (perm_of_eq (sym (append_assoc new (builder_traces cs) (pending_traces p))))
                (Permᴰ.trans
                  (Permᴰ.append_right (pending_traces p)
                    (Permᴰ.append_comm new (builder_traces cs)))
                  (perm_of_eq (append_assoc (builder_traces cs) new (pending_traces p))))))
            (Comes-append_left Stems (builder_traces cs)
              (insert_bundle-Becomes new id bs p (rw (other, lookup) at h))))
  ]

  enrich_builders-Becomes :
      (s : SimCacheEntry) (bs : Builders)
      → Becomes (builder_traces bs) (builder_traces (enrich_builders s bs))
  unfolding enrich_builders
  enrich_builders-Becomes s [] = unchanged Stems _
  enrich_builders-Becomes s ((b, x) ∷ bs) =
      changes (λ e from. From-enrich e.0 e.1 s x.bundle from) (enrich_builders-Becomes s bs)

  pub on_sim-Becomes :
      (e : SimEvent) (now : ℕ) (st : TrackerState)
      → Becomes (pending_traces st.pending) (pending_traces (on_sim e now st).pending)
  unfolding on_sim
  on_sim-Becomes e now st =
      let s = new_sim_entry e now in
      elim (Option-cases (lookup e.bundle_id st.pending)) [
        | inl absent ↦ rw (absent, on_sim) (unchanged Stems _)
        | inr (bs, found) ↦
            rw (found, on_sim)
              (insert_bundle-Becomes [] e.bundle_id (enrich_builders s bs) st.pending
                (rw found (enrich_builders-Becomes s bs)))
      ]

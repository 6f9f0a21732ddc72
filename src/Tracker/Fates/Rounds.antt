-- ===== src/Tracker/Fates/Rounds.antt =====
-- The fate of a hash event in the rounds of the goroutine.
use mathlib.Core.List.{Memᴰ}
use mathlib.Core.List.Memᴰ
use bundle_broadcaster.Common.{
  mem_of_perm, [], ◌∷◌, String, List, ◌≡◌, Bool, true, ◌++◌, refl, arith, ap, inl, inr, Bool-cases,
  eq_iff, ℕ, ◌∙◌, ◌==◌, ◌&&◌, lookup, subst, sym,
}
use bundle_broadcaster.Tracker.Events.{HashEvent, SimEvent}
use bundle_broadcaster.Tracker.Records.{
  BundleRecord, PendingEntry, enrich_if_cached, new_record, new_sim_entry,
}
use bundle_broadcaster.Tracker.Loop.{
  Disk, TrackerState, is_waiting, flushed_pending, on_hash, on_sim, flush, line_break,
}
use bundle_broadcaster.Tracker.Writing.{logged, write_records-lines}
use bundle_broadcaster.Tracker.Fates.{
  From-enrich, From-enrich_if_cached, From-builder, Works, written, superseded, Fate, logged-keeps,
  logged-mem,
}
use bundle_broadcaster.Tracker.Found.{
  find_entry-insert, find_entry-on_sim, find_entry-kept_pending, flushed_pending-mem,
}

both_true : (p q : Bool) → (p && q) ≡ true → (p ≡ true) × (q ≡ true)
both_true p q h = ground arith

both_same : (a b : String) → (a == a && b == b) ≡ true
both_same a b = ground (arith, eq_iff a a, eq_iff b b)

module _ (disk : Disk) (dir : String) where
  abbrev met : Bool → ℕ → TrackerState → List BundleRecord
  met force now st = disk.order st.tried (flushed_pending force now st.sim_cache st.pending)

  flush-mem :
      (force : Bool) (now after : ℕ) (st : TrackerState) (l : String × String)
      → Memᴰ l (logged disk dir st.tried st.files (met force now st) st.lines)
      → Memᴰ l (flush disk dir force now after st).lines
  unfolding flush
  flush-mem force now after st l m =
      subst (λ ls. Memᴰ l ls) (sym (write_records-lines disk dir st (met force now st))) m

  pub on_hash-Fate :
      (new : HashEvent) (a b : ℕ) (st : TrackerState) (e : HashEvent) (stamped : ℕ)
      (later : List (HashEvent × ℕ))
      → Fate disk dir st e stamped later
      → Fate disk dir (on_hash new a b st) e stamped (later ++ ((new, a) ∷ []))
  unfolding on_hash
  on_hash-Fate new a b st e stamped later (inl w) =
      let put : PendingEntry = record {
        bundle = enrich_if_cached (lookup new.bundle_id st.sim_cache) (new_record new a);
        received_at = b;
      } in
      let law = find_entry-insert new.bundle_id new.builder e.bundle_id e.builder put st.pending in
      elim (Bool-cases (new.bundle_id == e.bundle_id && new.builder == e.builder)) [
        | inl same ↦
            let (id, builder) =
              both_true (new.bundle_id == e.bundle_id) (new.builder == e.builder) same in
            inr (
              superseded (new, a) (Memᴰ.append_right later (Memᴰ.head refl))
                ((eq_iff new.bundle_id e.bundle_id).0 id)
                ((eq_iff new.builder e.builder).0 builder))
        | inr other ↦
            inl (record { entry = w.entry; found = law ∙ rw other w.found; from = w.from })
      ]
  on_hash-Fate new a b st e stamped later (inr (written r line from h m)) =
      inr (written r line from h m)
  on_hash-Fate new a b st e stamped later (inr (superseded next m same same')) =
      inr (superseded next (Memᴰ.append_left _ m) same same')

  pub on_hash-taken :
      (e : HashEvent) (a b : ℕ) (st : TrackerState) → Fate disk dir (on_hash e a b st) e a []
  unfolding on_hash
  on_hash-taken e a b st =
      let put : PendingEntry = record {
        bundle = enrich_if_cached (lookup e.bundle_id st.sim_cache) (new_record e a);
        received_at = b;
      } in
      let law = find_entry-insert e.bundle_id e.builder e.bundle_id e.builder put st.pending in
      let own = both_same e.bundle_id e.builder in
      inl (record {
        entry = put;
        found = law ∙ rw own refl;
        from = (lookup e.bundle_id st.sim_cache, refl);
      })

  pub on_sim-Fate :
      (new : SimEvent) (now : ℕ) (st : TrackerState) (e : HashEvent) (stamped : ℕ)
      (later : List (HashEvent × ℕ))
      → Fate disk dir st e stamped later
      → Fate disk dir (on_sim new now st) e stamped later
  unfolding on_sim
  on_sim-Fate new now st e stamped later (inl w) = inl (record {
    entry = _;
    found = find_entry-on_sim new now st e.bundle_id e.builder w.entry w.found;
    from = elim (Bool-cases (new.bundle_id == e.bundle_id)) [
      | inl same ↦ rw same (From-enrich e stamped (new_sim_entry new now) w.entry.bundle w.from)
      | inr other ↦ rw other w.from
    ];
  })
  on_sim-Fate new now st e stamped later (inr (written r line from h m)) =
      inr (written r line from h m)
  on_sim-Fate new now st e stamped later (inr (superseded next m same same')) =
      inr (superseded next m same same')

  pub flush-Fate :
      Works disk dir
      → (force : Bool) (now after : ℕ) (st : TrackerState) (e : HashEvent) (stamped : ℕ)
        (later : List (HashEvent × ℕ))
      → Fate disk dir st e stamped later
      → Fate disk dir (flush disk dir force now after st) e stamped later
  unfolding flush
  flush-Fate works force now after st e stamped later (inl w) =
      elim (Bool-cases (is_waiting force now w.entry)) [
        | inl stays ↦ inl (record {
          entry = w.entry;
          found =
              find_entry-kept_pending force now e.bundle_id e.builder w.entry st.pending w.found
                stays;
          from = w.from;
        })
        | inr goes ↦
            let o = lookup e.bundle_id st.sim_cache in
            let r = enrich_if_cached o w.entry.bundle in
            let from = From-enrich_if_cached e stamped o w.entry.bundle w.from in
            let (line, h) = works.marshals r in
            let m =
              mem_of_perm
                (disk.order-Perm st.tried (flushed_pending force now st.sim_cache st.pending))
                (flushed_pending-mem force now e.bundle_id e.builder w.entry st.sim_cache st.pending
                  w.found goes) in
            inr (
              written r line from h (
                flush-mem force now after st _ (
                  Memᴰ.cast
                    (ap (λ b. (b, line_break disk dir line)) (sym (From-builder e stamped r from)))
                    (logged-mem disk dir works st.tried st.files r (met force now st) line st.lines
                      h m))))
      ]
  flush-Fate works force now after st e stamped later (inr (written r line from h m)) = inr (
      written r line from h (
        flush-mem force now after st _
          (logged-keeps disk dir st.tried st.files (met force now st) _ st.lines m)))
  flush-Fate works force now after st e stamped later (inr (superseded next m same same')) =
      inr (superseded next m same same')

-- ===== src/Tracker/Fates/Draws/Flushing.antt =====
-- What flush makes of the lines and the pending records.
use mathlib.Core.Path.{ap₂}
use mathlib.Core.List.{Permᴰ, append_assoc, map-append}
use mathlib.Core.List.Permᴰ
use bundle_broadcaster.Common.{
  inl, inr, [], ◌∷◌, String, List, ◌≡◌, Bool, ◌++◌, ◌+◌, refl, Bool-cases, Option-cases, ℕ, lookup,
  Option, sym, ap, map, nonempty, if◌then◌else◌,
}
use bundle_broadcaster.Common.{
  changes, drops, moves, in_turn, unchanged, Comes-append_left, Comes-append_right, perm_of_eq,
  four_parts,
}
use bundle_broadcaster.Tracker.Records.{BundleRecord, SimCacheEntry, enrich_if_cached}
use bundle_broadcaster.Tracker.Loop.{
  Disk, TrackerState, Builders, flush, is_waiting, kept_builders, flushed_builders, kept_pending,
  flushed_pending, line_break,
}
use bundle_broadcaster.Tracker.Writing.{
  logged, line_of, left_by_write, files_with, has_file, write_records-lines,
}
use bundle_broadcaster.Tracker.Fates.{From-enrich_if_cached}
use bundle_broadcaster.Tracker.Fates.Sources.{left_by_write-IsLeft}
use bundle_broadcaster.Tracker.Fates.Draws.{
  Trace, builder_traces, pending_traces, traces, Stems, Becomes,
}

pending_traces_if_nonempty :
    (id : String) (kept : Builders) (rest : List (String × Builders))
    → builder_traces kept ++ pending_traces rest
      ≡ pending_traces (if nonempty kept then (id, kept) ∷ rest else rest)
pending_traces_if_nonempty id [] rest = refl
pending_traces_if_nonempty id (x ∷ kept) rest = refl

module _ (disk : Disk) (dir : String) (force : Bool) (now : ℕ) where
  kept_builders-Becomes :
      (sim : Option SimCacheEntry) (bs : Builders)
      → Becomes disk dir (builder_traces bs) (
          builder_traces (kept_builders force now bs)
          ++ map inr (flushed_builders force now sim bs))
  unfolding kept_builders flushed_builders
  kept_builders-Becomes sim [] = unchanged (Stems disk dir) []
  kept_builders-Becomes sim ((b, x) ∷ bs) =
      let kept = builder_traces (kept_builders force now bs) in
      let gone : List Trace = map inr (flushed_builders force now sim bs) in
      elim (Bool-cases (is_waiting force now x)) [
        | inl stays ↦
            rw (stays, kept_builders, flushed_builders)
              (changes (λ e from. from) (kept_builders-Becomes sim bs))
        | inr goes ↦
            rw (goes, kept_builders, flushed_builders)
              (in_turn
                (changes (λ e from. From-enrich_if_cached e.0 e.1 sim x.bundle from)
                  (kept_builders-Becomes sim bs))
                (moves (Permᴰ.symm (Permᴰ.middle (inr (enrich_if_cached sim x.bundle)) kept gone))))
      ]

  kept_pending-Becomes :
      (cache : List (String × SimCacheEntry)) (p : List (String × Builders))
      → Becomes disk dir
          (pending_traces p)
          (pending_traces (kept_pending force now p) ++ map inr (flushed_pending force now cache p))
  unfolding kept_pending flushed_pending
  kept_pending-Becomes cache [] = unchanged (Stems disk dir) []
  kept_pending-Becomes cache ((id, bs) ∷ p) =
      let sim = lookup id cache in
      let kept = builder_traces (kept_builders force now bs) in
      let gone : List Trace = map inr (flushed_builders force now sim bs) in
      let kept' = pending_traces (kept_pending force now p) in
      let gone' : List Trace = map inr (flushed_pending force now cache p) in
      in_turn
        (Comes-append_right (Stems disk dir) (pending_traces p) (kept_builders-Becomes sim bs))
        (in_turn (Comes-append_left (Stems disk dir) (kept ++ gone) (kept_pending-Becomes cache p))
          (moves (
            Permᴰ.trans (four_parts kept gone kept' gone') (
              perm_of_eq (
                ap₂ (λ xs ys. xs ++ ys)
                  (pending_traces_if_nonempty id (kept_builders force now bs)
                    (kept_pending force now p))
                  (sym (
                    map-append inr (flushed_builders force now sim bs)
                      (flushed_pending force now cache p))))))))

module _ (disk : Disk) (dir : String) where
  line_of-Becomes :
      (n : ℕ) (files : List String) (r : BundleRecord) (lines : List (String × String))
      (rest : List Trace)
      → Becomes disk dir
          (inr r ∷ (rest ++ map inl lines))
          (rest ++ map inl (line_of disk dir n files r ++ lines))
  line_of-Becomes n files r lines rest = elim (Bool-cases (has_file disk dir n files r)) [
    | inr has_none ↦ rw has_none (drops (unchanged (Stems disk dir) _))
    | inl has ↦ elim (Option-cases (disk.marshal r)) [
      | inl bad ↦ rw (has, bad) (drops (unchanged (Stems disk dir) _))
      | inr (line, marshalled) ↦
          let wrote = disk.wrote n r.builder (line_break disk dir line) in
          let l : String × String = (r.builder, left_by_write disk dir wrote line) in
          rw (has, marshalled)
            (in_turn
              (changes
                (λ e from.
                  (r, line, from, marshalled, left_by_write-IsLeft disk dir n r.builder line))
                (unchanged (Stems disk dir) _))
              (moves (Permᴰ.symm (Permᴰ.middle (inl l) rest (map inl lines)))))
    ]
  ]

  logged-Becomes :
      (n : ℕ) (files : List String) (rs : List BundleRecord) (lines : List (String × String))
      → Becomes disk dir (map inr rs ++ map inl lines) (map inl (logged disk dir n files rs lines))
  logged-Becomes n files [] lines = unchanged (Stems disk dir) _
  logged-Becomes n files (r ∷ rs) lines = in_turn (line_of-Becomes n files r lines (map inr rs)) (
      logged-Becomes (n + 1) (files_with disk dir n files r) rs
        (line_of disk dir n files r ++ lines))

  -- The lines, the records that stay and those that are written, in the order of the writing.
  in_writing_order :
      (lines stay gone order : List Trace)
      → Permᴰ gone order
      → Permᴰ (lines ++ (stay ++ gone)) ((order ++ lines) ++ stay)
  in_writing_order lines stay gone order p = Permᴰ.trans (Permᴰ.append_comm lines (stay ++ gone)) (
      Permᴰ.trans (perm_of_eq (append_assoc stay gone lines)) (
        Permᴰ.trans (Permᴰ.append_comm stay (gone ++ lines))
          (Permᴰ.append_right stay (Permᴰ.append_right lines p))))

  pub flush-Becomes :
      (force : Bool) (now later : ℕ) (st : TrackerState)
      → Becomes disk dir (traces st) (traces (flush disk dir force now later st))
  unfolding flush
  flush-Becomes force now later st =
      let flushed = flushed_pending force now st.sim_cache st.pending in
      let rs = disk.order st.tried flushed in
      let stay = pending_traces (kept_pending force now st.pending) in
      in_turn
        (Comes-append_left (Stems disk dir) (map inl st.lines)
          (kept_pending-Becomes disk dir force now st.sim_cache st.pending))
        (in_turn
          (moves (
            in_writing_order (map inl st.lines) stay (map inr flushed) (map inr rs)
              (Permᴰ.map inr (disk.order-Perm st.tried flushed))))
          (in_turn
            (Comes-append_right (Stems disk dir) stay
              (logged-Becomes st.tried st.files rs st.lines))
            (moves (
              perm_of_eq
                (ap (λ ls. map inl ls ++ stay) (sym (write_records-lines disk dir st rs)))))))

-- ===== src/Tracker/Writing.antt =====
-- The lines that flush adds to the files.
use mathlib.Core.List.{Permᴰ}
use bundle_broadcaster.Tracker.Records.{BundleRecord}
use bundle_broadcaster.Tracker.Loop.{
  Disk, TrackerState, is_open, get_file, write_line, write_record, write_records, file_path,
  line_break, flush, flushed_pending,
}
use bundle_broadcaster.Common.{
  none, some, [], ◌∷◌, String, List, Option, ◌≡◌, Bool, if◌then◌else◌, ◌++◌, ◌||◌, ◌+◌, refl, arith,
  ap, ℕ, ◌∙◌, keep, map, subst,
}
use bundle_broadcaster.Tracker.Flush.{
  entries, completed, stays, goes, entries-kept_pending, flushed_pending-completed,
}

module _ (disk : Disk) (dir : String) where
  -- The builder's file is open, or can be opened now.
  abbrev pub has_file : ℕ → List String → BundleRecord → Bool
  has_file n files r = is_open r.builder files || disk.can_open n (file_path disk dir r.builder)

  abbrev pub files_with : ℕ → List String → BundleRecord → List String
  files_with n files r =
      if is_open r.builder files
      then files
      else if disk.can_open n (file_path disk dir r.builder)
      then r.builder ∷ files
      else files

  -- What Write leaves of a line: all of it, or the part it wrote before its error.
  abbrev pub left_by_write : Option String → String → String
  left_by_write none line = line_break disk dir line
  left_by_write (some part) line = part

  abbrev pub line_if_marshalled : ℕ → BundleRecord → Option String → List (String × String)
  line_if_marshalled n r none = []
  line_if_marshalled n r (some line) =
      (r.builder, left_by_write (disk.wrote n r.builder (line_break disk dir line)) line) ∷ []

  -- What a record makes of its builder's file. It leaves nothing if the file cannot be opened or the
  -- record cannot be marshalled.
  abbrev pub line_of : ℕ → List String → BundleRecord → List (String × String)
  line_of n files r = if has_file n files r then line_if_marshalled n r (disk.marshal r) else []

  -- The log after some records, the latest line first.
  abbrev pub logged :
      ℕ → List String → List BundleRecord → List (String × String) → List (String × String)
  logged n files [] lines = lines
  logged n files (r ∷ rs) lines =
      logged (n + 1) (files_with n files r) rs (line_of n files r ++ lines)

  write_record-lines :
      (st : TrackerState) (r : BundleRecord)
      → (write_record disk dir st r).lines ≡ line_of st.tried st.files r ++ st.lines
  unfolding write_record get_file write_line
  write_record-lines st r = ground arith

  write_record-others :
      (st : TrackerState) (r : BundleRecord)
      → ((write_record disk dir st r).files ≡ files_with st.tried st.files r)
        × ((write_record disk dir st r).tried ≡ st.tried + 1)
        × ((write_record disk dir st r).sim_cache ≡ st.sim_cache)
  unfolding write_record get_file write_line
  write_record-others st r = ground arith

  pub write_records-lines :
      (st : TrackerState) (rs : List BundleRecord)
      → (write_records disk dir st rs).lines ≡ logged st.tried st.files rs st.lines
  unfolding write_records
  write_records-lines st [] = refl
  write_records-lines st (r ∷ rs) =
      let (files, tried, cache) = write_record-others st r in
      write_records-lines (write_record disk dir st r) rs
      ∙ ap (λ n. logged n (write_record disk dir st r).files rs (write_record disk dir st r).lines)
          tried
      ∙ ap (λ fs. logged (st.tried + 1) fs rs (write_record disk dir st r).lines) files
      ∙ ap (logged (st.tried + 1) (files_with st.tried st.files r) rs) (write_record-lines st r)

  pub write_records-sim_cache :
      (st : TrackerState) (rs : List BundleRecord)
      → (write_records disk dir st rs).sim_cache ≡ st.sim_cache
  unfolding write_records
  write_records-sim_cache st [] = refl
  write_records-sim_cache st (r ∷ rs) =
      write_records-sim_cache (write_record disk dir st r) rs ∙ (write_record-others st r).2

  pub flush-splits :
      (force : Bool) (now later : ℕ) (st : TrackerState)
      → (entries (flush disk dir force now later st).pending
          ≡ keep (stays force now) (entries st.pending))
        × (rs : List BundleRecord) × Permᴰ
            (map (completed st.sim_cache) (keep (goes force now) (entries st.pending)))
            rs
        × ((flush disk dir force now later st).lines ≡ logged st.tried st.files rs st.lines)
  unfolding flush
  flush-splits force now later st =
      let flushed = flushed_pending force now st.sim_cache st.pending in
      let rs = disk.order st.tried flushed in
      (
        entries-kept_pending force now st.pending,
        rs,
        subst (λ xs. Permᴰ xs rs) (flushed_pending-completed force now st.sim_cache st.pending)
            (disk.order-Perm st.tried flushed),
        write_records-lines st rs,
      )

-- ===== src/Tracker/Fates.antt =====
-- What becomes of a hash event that the goroutine of tracker.go has received.
pub mod Rounds
pub mod Received
pub mod Ending
pub mod Sources
pub mod Lines
pub mod Draws
use mathlib.Core.List.{Memᴰ}
use mathlib.Core.List.Memᴰ
use bundle_broadcaster.Common.{
  none, some, [], ◌∷◌, String, List, Option, ◌≡◌, Bool, true, false, if◌then◌else◌, ◌++◌, ◌+◌, refl,
  arith, ap, inl, inr, Bool-cases, Option-cases, eq_iff, ℕ, ◌∙◌, ◌==◌, ◌&&◌, lookup, ◌⊎◌, subst,
  sym,
}
use bundle_broadcaster.Tracker.Events.{HashEvent, SimEvent}
use bundle_broadcaster.Tracker.Records.{
  BundleRecord, PendingEntry, SimCacheEntry, enrich, enrich_if_cached, new_record, new_sim_entry,
}
use bundle_broadcaster.Tracker.Loop.{
  Disk, TrackerState, Builders, or_empty, is_waiting, flushed_pending, on_hash, on_sim, flush,
  file_path, line_break,
}
use bundle_broadcaster.Tracker.Writing.{logged, line_of, files_with, write_records-lines}
use bundle_broadcaster.Tracker.Found.{
  find_entry, find_entry-insert, find_entry-on_sim, find_entry-kept_pending, flushed_pending-mem,
}

-- The record of a hash event that was stamped with a time, with the result of a simulation or without.
abbrev pub From : HashEvent → ℕ → BundleRecord → Type 0
From e stamped r = (o : Option SimCacheEntry) × (r ≡ enrich_if_cached o (new_record e stamped))

pub From-enrich :
    (e : HashEvent) (stamped : ℕ) (s : SimCacheEntry) (r : BundleRecord)
    → From e stamped r
    → From e stamped (enrich s r)
unfolding enrich_if_cached enrich
From-enrich e stamped s r (none, same) = (some s, ap (enrich s) same)
From-enrich e stamped s r (some s', same) = (some s, ap (enrich s) same)

pub From-enrich_if_cached :
    (e : HashEvent) (stamped : ℕ) (o : Option SimCacheEntry) (r : BundleRecord)
    → From e stamped r
    → From e stamped (enrich_if_cached o r)
unfolding enrich_if_cached
From-enrich_if_cached e stamped none r from = from
From-enrich_if_cached e stamped (some s) r from = From-enrich e stamped s r from

pub From-builder :
    (e : HashEvent) (stamped : ℕ) (r : BundleRecord) → From e stamped r → r.builder ≡ e.builder
unfolding enrich_if_cached enrich new_record
From-builder e stamped r (none, same) = ap (λ q. q.builder) same
From-builder e stamped r (some s, same) = ap (λ q. q.builder) same

module _ (disk : Disk) (dir : String) where
  -- The operating system and encoding/json take everything.
  pub record Works : Type 0 where
    pub opens : (n : ℕ) (builder : String) → disk.can_open n (file_path disk dir builder) ≡ true
    pub writes : (n : ℕ) (builder line : String) → disk.wrote n builder line ≡ none
    pub marshals : (r : BundleRecord) → (line : String) × (disk.marshal r ≡ some line)

  -- Its record is pending.
  pub record Waits (st : TrackerState) (e : HashEvent) (stamped : ℕ) : Type 0 where
    pub entry : PendingEntry
    pub found : find_entry e.bundle_id e.builder st.pending ≡ some entry
    pub from : From e stamped entry.bundle

  -- A line of its builder's file is its record, or an event that came after it, of the same bundle and
  -- the same builder, has taken its place.
  pub data Done (st : TrackerState) (e : HashEvent) (stamped : ℕ) (later : List (HashEvent × ℕ))
      : Type 0 where
    written :
        (r : BundleRecord) (line : String)
        → From e stamped r
        → disk.marshal r ≡ some line
        → Memᴰ (e.builder, line_break disk dir line) st.lines
        → Done st e stamped later
    superseded :
        (next : HashEvent × ℕ)
        → Memᴰ next later
        → next.0.bundle_id ≡ e.bundle_id
        → next.0.builder ≡ e.builder
        → Done st e stamped later

  abbrev pub Fate : TrackerState → HashEvent → ℕ → List (HashEvent × ℕ) → Type 0
  Fate st e stamped later = Waits st e stamped ⊎ Done st e stamped later

  pub logged-keeps :
      (n : ℕ) (files : List String) (rs : List BundleRecord) (l : String × String)
      (lines : List (String × String))
      → Memᴰ l lines
      → Memᴰ l (logged disk dir n files rs lines)
  logged-keeps n files [] l lines m = m
  logged-keeps n files (r ∷ rs) l lines m =
      logged-keeps (n + 1) (files_with disk dir n files r) rs l
        (line_of disk dir n files r ++ lines) (Memᴰ.append_right (line_of disk dir n files r) m)

  line_of_works :
      Works
      → (n : ℕ) (files : List String) (r : BundleRecord) (line : String)
      → disk.marshal r ≡ some line
      → line_of disk dir n files r ≡ (r.builder, line_break disk dir line) ∷ []
  line_of_works works n files r line h =
      ground
        (arith, h, works.opens n r.builder, works.writes n r.builder (line_break disk dir line))

  pub logged-mem :
      Works
      → (n : ℕ) (files : List String) (r : BundleRecord) (rs : List BundleRecord) (line : String)
        (lines : List (String × String))
      → disk.marshal r ≡ some line
      → Memᴰ r rs
      → Memᴰ (r.builder, line_break disk dir line) (logged disk dir n files rs lines)
  logged-mem works n files r [] line lines h m = absurd (Memᴰ.not-nil m)
  logged-mem works n files r (q ∷ rs) line lines h (Memᴰ.head same) =
      logged-keeps (n + 1) (files_with disk dir n files q) rs _ _ (
        Memᴰ.append_left lines
          (rw (← same) (rw (line_of_works works n files r line h) (Memᴰ.head refl))))
  logged-mem works n files r (q ∷ rs) line lines h (Memᴰ.tail m) =
      logged-mem works (n + 1) (files_with disk dir n files q) r rs line _ h m

-- ===== src/Tracker/Loop.antt =====
-- The goroutine of tracker.go: one function for each case of its select.
use Prim.Native.String
use mathlib.Core.List.{Permᴰ}
use bundle_broadcaster.Tracker.Events.{HashEvent, SimEvent}
use bundle_broadcaster.Common.{
  none, some, [], true, false, ◌∷◌, Bool, List, Option, String, ℕ, if◌then◌else◌, insert, lookup,
  not, ltb, nonempty, ◌&&◌, ◌++◌, ◌==◌, ◌+◌,
}
use bundle_broadcaster.Tracker.Records.{
  BundleRecord, PendingEntry, SimCacheEntry, enrich, enrich_if_cached, new_record, new_sim_entry,
}

-- The file system, path/filepath and encoding/json: a path from a directory and a name, can the directory
-- be made, and the line for a record. What a file can do changes in time: the number says how many
-- records have been given to writeRecord before. `wrote` is `none` if Write has put the whole line into
-- the file of a builder, and else the part of it that Write has left there with its error. `order` is the
-- order in which Go, which walks its maps in any, meets the entries that flush writes.
pub record Disk : Type 0 where
  pub join : String → String → String
  pub make_dir : String → Bool
  pub can_open : ℕ → String → Bool
  pub wrote : ℕ → String → String → Option String
  pub marshal : BundleRecord → Option String
  pub order : ℕ → List BundleRecord → List BundleRecord
  -- Each entry is met once.
  pub order-Perm : (n : ℕ) (rs : List BundleRecord) → Permᴰ rs (order n rs)

abbrev pub Builders : Type 0
Builders = List (String × PendingEntry)

-- The variables of `run`. `files` are the builders with an open file, `tried` is the number of records
-- given to writeRecord, and `lines` is what its calls of Write have put into the files, with the builder
-- whose file has it, the latest first. A file is opened for appending and may hold more before that.
pub record TrackerState : Type 0 where
  pub pending : List (String × Builders)
  pub sim_cache : List (String × SimCacheEntry)
  pub files : List String
  pub tried : ℕ
  pub lines : List (String × String)

unfoldable pub start_state : TrackerState
start_state = record { pending = []; sim_cache = []; files = []; tried = 0; lines = [] }

unfoldable pub is_open : String → List String → Bool
is_open builder [] = false
is_open builder (f ∷ files) = if f == builder then true else is_open builder files

module _ (disk : Disk) (dir : String) where
  abbrev pub file_path : String → String
  file_path builder = disk.join dir (String.◌++◌ builder ".jsonl")

  -- The open files, and whether the builder's is one of them.
  unfoldable pub get_file : ℕ → String → List String → List String × Bool
  unfolding is_open
  get_file n builder files =
      if is_open builder files
      then (files, true)
      else if disk.can_open n (file_path builder)
      then (builder ∷ files, true)
      else (files, false)

  abbrev pub line_break : String → String
  line_break line = String.◌++◌ line "\n"

  -- Write appends the whole line, or a part of it.
  unfoldable pub write_line : ℕ → BundleRecord → String → TrackerState → TrackerState
  write_line n r line st = elim (disk.wrote n r.builder (line_break line)) [
    | none ↦ record st { lines = (r.builder, line_break line) ∷ st.lines }
    | some part ↦ record st { lines = (r.builder, part) ∷ st.lines }
  ]

  unfoldable pub write_record : TrackerState → BundleRecord → TrackerState
  unfolding get_file write_line
  write_record st r =
      let (files, opened) = get_file st.tried r.builder st.files in
      let st' = record st { files = files; tried = st.tried + 1 } in
      if opened
      then elim (disk.marshal r) [ none ↦ st' | some line ↦ write_line st.tried r line st' ]
      else st'

  unfoldable pub write_records : TrackerState → List BundleRecord → TrackerState
  unfolding write_record
  write_records st [] = st
  write_records st (r ∷ rs) = write_records (write_record st r) rs

-- `!force && entry.receivedAt.After(deadline)`, for the deadline two seconds before `now`.
unfoldable pub is_waiting : Bool → ℕ → PendingEntry → Bool
is_waiting force now e = not force && ltb now (e.received_at + 2000000000)

module _ (force : Bool) (now : ℕ) where
  -- The inner loop of flush: the entries that stay.
  unfoldable pub kept_builders : Builders → Builders
  unfolding is_waiting
  kept_builders [] = []
  kept_builders ((builder, e) ∷ rest) =
      if is_waiting force now e then (builder, e) ∷ kept_builders rest else kept_builders rest

  -- The inner loop of flush: the records that it writes.
  unfoldable pub flushed_builders : Option SimCacheEntry → Builders → List BundleRecord
  unfolding is_waiting enrich_if_cached
  flushed_builders sim [] = []
  flushed_builders sim ((builder, e) ∷ rest) =
      if is_waiting force now e
      then flushed_builders sim rest
      else enrich_if_cached sim e.bundle ∷ flushed_builders sim rest

  -- The outer loop: a bundle with no builder left is deleted.
  unfoldable pub kept_pending : List (String × Builders) → List (String × Builders)
  unfolding kept_builders
  kept_pending [] = []
  kept_pending ((id, builders) ∷ rest) =
      let kept = kept_builders builders in
      if nonempty kept then (id, kept) ∷ kept_pending rest else kept_pending rest

  unfoldable pub flushed_pending :
      List (String × SimCacheEntry) → List (String × Builders) → List BundleRecord
  unfolding flushed_builders
  flushed_pending cache [] = []
  flushed_pending cache ((id, builders) ∷ rest) =
      flushed_builders (lookup id cache) builders ++ flushed_pending cache rest

-- Entries older than 30 seconds leave the cache.
unfoldable pub evict : ℕ → List (String × SimCacheEntry) → List (String × SimCacheEntry)
evict now [] = []
evict now ((id, s) ∷ rest) =
    if ltb (s.received_at + 30000000000) now then evict now rest else (id, s) ∷ evict now rest

-- flush: the entries are written in the order in which they are met. The clock is read at its begin and
-- before the eviction.
unfoldable pub flush : Disk → String → Bool → ℕ → ℕ → TrackerState → TrackerState
unfolding kept_pending flushed_pending evict write_records
flush disk dir force now later st =
    let met = disk.order st.tried (flushed_pending force now st.sim_cache st.pending) in
    let st' = write_records disk dir st met in
    record st' {
      pending = kept_pending force now st.pending;
      sim_cache = evict later st'.sim_cache;
    }

abbrev pub or_empty : Option Builders → Builders
or_empty none = []
or_empty (some builders) = builders

-- The case of hashCh. The clock is read for the time stamp and for the entry.
unfoldable pub on_hash : HashEvent → ℕ → ℕ → TrackerState → TrackerState
unfolding new_record enrich_if_cached
on_hash e stamped received st =
    let r = enrich_if_cached (lookup e.bundle_id st.sim_cache) (new_record e stamped) in
    record st {
      pending =
          insert e.bundle_id
            (insert e.builder (record { bundle = r; received_at = received })
              (or_empty (lookup e.bundle_id st.pending)))
            st.pending;
    }

unfoldable pub enrich_builders : SimCacheEntry → Builders → Builders
unfolding enrich
enrich_builders sim [] = []
enrich_builders sim ((builder, e) ∷ rest) =
    (builder, record e { bundle = enrich sim e.bundle }) ∷ enrich_builders sim rest

-- The case of simCh.
unfoldable pub on_sim : SimEvent → ℕ → TrackerState → TrackerState
unfolding new_sim_entry enrich_builders
on_sim e now st =
    let entry = new_sim_entry e now in
    record st {
      sim_cache = insert e.bundle_id entry st.sim_cache;
      pending = elim (lookup e.bundle_id st.pending) [
        | none ↦ st.pending
        | some builders ↦ insert e.bundle_id (enrich_builders entry builders) st.pending
      ];
    }

-- What the goroutine receives, with the times that it reads: from hashCh, simCh or the ticker.
pub data Received : Type 0 where
  hash_event : HashEvent → ℕ → ℕ → Received
  sim_event : SimEvent → ℕ → Received
  ticked : ℕ → ℕ → Received

-- One round of the select, other than that of doneCh.
unfoldable pub on_received : Disk → String → TrackerState → Received → TrackerState
on_received disk dir st (hash_event e stamped received) = on_hash e stamped received st
on_received disk dir st (sim_event e now) = on_sim e now st
on_received disk dir st (ticked now later) = flush disk dir false now later st

-- The rounds up to the one that receives from doneCh, which ends the goroutine.
unfoldable pub run : Disk → String → TrackerState → List Received → TrackerState
run disk dir st [] = st
run disk dir st (r ∷ rs) = run disk dir (on_received disk dir st r) rs

unfoldable pub stop : Disk → String → ℕ → ℕ → TrackerState → TrackerState
unfolding flush
stop disk dir now later st = flush disk dir true now later st

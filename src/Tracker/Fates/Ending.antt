-- ===== src/Tracker/Fates/Ending.antt =====
-- The fate of the hash events that the callers of RecordHash hand to the tracker.
use bundle_broadcaster.Common.{
  some, [], ◌∷◌, String, List, ◌≡◌, ◌≢◌, true, ◌++◌, arith, inl, inr, Bool-cases, ℕ, ◌==◌, lookup,
  map,
}
use bundle_broadcaster.Tracker.Events.{HashEvent}
use bundle_broadcaster.Tracker.Records.{PendingEntry}
use bundle_broadcaster.Tracker.Loop.{Disk, Builders}
use bundle_broadcaster.Tracker.Flush.{entries}
use bundle_broadcaster.Tracker.Process.{Process, History}
use bundle_broadcaster.Tracker.Shutdown.{History-Kept}
use bundle_broadcaster.Tracker.Found.{find_entry}
use bundle_broadcaster.Tracker.Fates.{Works, Done, Fate}
use bundle_broadcaster.Tracker.Fates.Received.{accepted, received, History-keep, History-received}
use bundle_broadcaster.Tracker.Fates.Rounds.{on_hash-Fate, on_hash-taken, on_sim-Fate, flush-Fate}

find_entry_none :
    (id b : String) (x : PendingEntry) (p : List (String × Builders))
    → find_entry id b p ≡ some x
    → entries p ≢ []
unfolding lookup
find_entry_none id b x [] h e = ground arith
find_entry_none id b x ((j, []) ∷ p) h e = elim (Bool-cases (j == id)) [
  | inl same ↦ ground arith
  | inr other ↦ find_entry_none id b x p (ground arith) e
]
find_entry_none id b x ((j, (c, y) ∷ bs) ∷ p) h e = cc e

-- What is true of each event of a list and those that came after it.
abbrev pub Each : (HashEvent → ℕ → List (HashEvent × ℕ) → Type 0) → List (HashEvent × ℕ) → Type 0
Each P [] = Unit
Each P ((e, stamped) ∷ later) = P e stamped later × Each P later

Each-imp :
    (P Q : HashEvent → ℕ → List (HashEvent × ℕ) → Type 0) (es : List (HashEvent × ℕ))
    → ((e : HashEvent) (stamped : ℕ) (later : List (HashEvent × ℕ))
        → P e stamped later
        → Q e stamped later)
    → Each P es
    → Each Q es
Each-imp P Q [] f h = tt
Each-imp P Q ((e, stamped) ∷ later) f h = (f e stamped later h.0, Each-imp P Q later f h.1)

Each-append :
    (P Q : HashEvent → ℕ → List (HashEvent × ℕ) → Type 0) (new : HashEvent) (a : ℕ)
    (es : List (HashEvent × ℕ))
    → ((e : HashEvent) (stamped : ℕ) (later : List (HashEvent × ℕ))
        → P e stamped later
        → Q e stamped (later ++ ((new, a) ∷ [])))
    → Q new a []
    → Each P es
    → Each Q (es ++ ((new, a) ∷ []))
Each-append P Q new a [] f q h = (q, tt)
Each-append P Q new a ((e, stamped) ∷ later) f q h =
    (f e stamped later h.0, Each-append P Q new a later f q h.1)

module _ (disk : Disk) (dir : String) where
  History-Fate :
      Works disk dir
      → {p : Process} (h : History disk dir p) → Each (Fate disk dir p.state) (received disk dir h)
  History-Fate works {p} h =
      History-keep disk dir (λ es st. Each (Fate disk dir st) es)
        (record {
          start = tt;
          hashes = λ e a b st es.
              Each-append (Fate disk dir st) _ e a es (on_hash-Fate disk dir e a b st)
                (on_hash-taken disk dir e a b st);
          sims = λ e now st es. Each-imp (Fate disk dir st) _ es (on_sim-Fate disk dir e now st);
          flushes = λ force now later st es.
              Each-imp (Fate disk dir st) _ es (flush-Fate disk dir works force now later st);
        })
        h

  Fate-Done :
      (p : Process) (e : HashEvent) (stamped : ℕ) (later : List (HashEvent × ℕ))
      → entries p.state.pending ≡ []
      → Fate disk dir p.state e stamped later
      → Done disk dir p.state e stamped later
  Fate-Done p e stamped later empty (inl w) =
      absurd (find_entry_none e.bundle_id e.builder w.entry p.state.pending w.found empty)
  Fate-Done p e stamped later empty (inr done) = done

  -- No bundle hash is lost without a reason. If the files can be opened and written and every record can
  -- be marshalled, then after any history of the tracker whose goroutine has ended: the hash events that
  -- RecordHash has put into the channel are, in order, those that the goroutine has received and then
  -- those that stay in the channel; and of each received one, its record, with a simulation result
  -- copied into it or without one, is a line of its builder's file, unless another event of the same
  -- bundle and the same builder was received after it.
  pub received_hashes_end :
      Works disk dir
      → {p : Process} (h : History disk dir p) → p.has_ended ≡ true
      → (accepted disk dir h ≡ map (λ r. r.0) (received disk dir h) ++ p.hash_ch)
        × Each (Done disk dir p.state) (received disk dir h)
  received_hashes_end works {p} h ended = (
    History-received disk dir h,
    Each-imp (Fate disk dir p.state) _ (received disk dir h)
        (λ e stamped later. Fate-Done p e stamped later ((History-Kept disk dir p h).flushed ended))
        (History-Fate works h),
  )

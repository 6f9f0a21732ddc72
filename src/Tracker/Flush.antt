-- ===== src/Tracker/Flush.antt =====
-- What flush writes, and what it leaves for later, over the flat list of the entries.
use mathlib.Core.List.{map-append}
use mathlib.Core.Path.{ap₂}
use bundle_broadcaster.Tracker.Records.{BundleRecord, PendingEntry, SimCacheEntry, enrich_if_cached}
use bundle_broadcaster.Common.{
  [], inl, inr, refl, ap, ◌∷◌, Bool, List, String, lookup, ℕ, ◌++◌, not, ◌≡◌, keep, map, Bool-cases,
  sym, if◌then◌else◌, keep-append, ◌∙◌, nonempty,
}
use bundle_broadcaster.Tracker.Loop.{
  Builders, is_waiting, kept_builders, flushed_builders, kept_pending, flushed_pending,
}

-- An entry under its bundle's id and its builder.
pub record Tagged : Type 0 where
  pub bundle_id : String
  pub builder : String
  pub entry : PendingEntry

abbrev pub tag : String → Builders → List Tagged
tag id [] = []
tag id ((builder, e) ∷ rest) = record { bundle_id = id; builder = builder; entry = e } ∷ tag id rest

abbrev pub entries : List (String × Builders) → List Tagged
entries [] = []
entries ((id, builders) ∷ rest) = tag id builders ++ entries rest

-- The record that flush writes for an entry.
abbrev pub completed : List (String × SimCacheEntry) → Tagged → BundleRecord
completed cache t = enrich_if_cached (lookup t.bundle_id cache) t.entry.bundle

-- A bundle with no builder left adds no entry.
entries_if_nonempty :
    (id : String) (kept : Builders) (rest : List (String × Builders))
    → entries (if nonempty kept then (id, kept) ∷ rest else rest) ≡ tag id kept ++ entries rest
entries_if_nonempty id [] rest = refl
entries_if_nonempty id (x ∷ kept) rest = refl

module _ (force : Bool) (now : ℕ) where
  abbrev pub stays : Tagged → Bool
  stays t = is_waiting force now t.entry

  abbrev pub goes : Tagged → Bool
  goes t = not (is_waiting force now t.entry)

  tag-kept_builders :
      (id : String) (bs : Builders) → tag id (kept_builders force now bs) ≡ keep stays (tag id bs)
  unfolding kept_builders
  tag-kept_builders id [] = refl
  tag-kept_builders id ((b, e) ∷ rest) = elim (Bool-cases (is_waiting force now e)) [
    | inl h ↦
        let t : Tagged = record { bundle_id = id; builder = b; entry = e } in
        rw (h, kept_builders) (ap (◌∷◌ t) (tag-kept_builders id rest))
    | inr h ↦ rw (h, kept_builders) (tag-kept_builders id rest)
  ]

  flushed_builders-completed :
      (cache : List (String × SimCacheEntry)) (id : String) (bs : Builders)
      → flushed_builders force now (lookup id cache) bs
        ≡ map (completed cache) (keep goes (tag id bs))
  unfolding flushed_builders
  flushed_builders-completed cache id [] = refl
  flushed_builders-completed cache id ((b, e) ∷ rest) = elim (Bool-cases (is_waiting force now e)) [
    | inl h ↦ rw (h, flushed_builders) (flushed_builders-completed cache id rest)
    | inr h ↦
        let r : BundleRecord = enrich_if_cached (lookup id cache) e.bundle in
        rw (h, flushed_builders) (ap (◌∷◌ r) (flushed_builders-completed cache id rest))
  ]

  pub entries-kept_pending :
      (p : List (String × Builders)) → entries (kept_pending force now p) ≡ keep stays (entries p)
  unfolding kept_pending
  entries-kept_pending [] = refl
  entries-kept_pending ((id, bs) ∷ rest) =
      entries_if_nonempty id (kept_builders force now bs) (kept_pending force now rest)
      ∙ ap₂ (λ xs ys. xs ++ ys) (tag-kept_builders id bs) (entries-kept_pending rest)
      ∙ sym (keep-append stays (tag id bs) (entries rest))

  pub flushed_pending-completed :
      (cache : List (String × SimCacheEntry)) (p : List (String × Builders))
      → flushed_pending force now cache p ≡ map (completed cache) (keep goes (entries p))
  unfolding flushed_pending
  flushed_pending-completed cache [] = refl
  flushed_pending-completed cache ((id, bs) ∷ rest) =
      rw (keep-append goes (tag id bs) (entries rest), map-append)
        (ap₂ (λ xs ys. xs ++ ys) (flushed_builders-completed cache id bs)
          (flushed_pending-completed cache rest))

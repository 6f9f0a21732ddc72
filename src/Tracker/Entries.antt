-- ===== src/Tracker/Entries.antt =====
-- Predicates on all entries of the tracker's map of maps, under its updates.
use bundle_broadcaster.Tracker.Records.{PendingEntry}
use bundle_broadcaster.Tracker.Loop.{Builders, or_empty}
use bundle_broadcaster.Tracker.Flush.{Tagged, tag, entries}
use bundle_broadcaster.Common.{
  [], inl, inr, eq_iff, ◌∷◌, List, UniqueKeys, insert, lookup, All, String, All-append, Bool-cases,
  ◌≡◌, ◌==◌, All-left, All-right, none, refl, arith, ◌≢◌, All-imp, some, subst,
}

module _ {κ} (P : Tagged → Type κ) where
  pub All-tag-insert :
      (id b : String) (e : PendingEntry) (bs : Builders)
      → P (record { bundle_id = id; builder = b; entry = e })
      → All P (tag id bs)
      → All P (tag id (insert b e bs))
  unfolding insert
  All-tag-insert id b e [] p h = (p, tt)
  All-tag-insert id b e ((c, d) ∷ bs) p h = elim (Bool-cases (c == b)) [
    | inl same ↦ rw (same, insert) (rw ((eq_iff c b).0 same) p, h.1)
    | inr other ↦ rw (other, insert) (h.0, All-tag-insert id b e bs p h.1)
  ]

  pub All-tag_of_entries :
      (id : String) (p : List (String × Builders))
      → All P (entries p)
      → All P (tag id (or_empty (lookup id p)))
  unfolding lookup
  All-tag_of_entries id [] h = tt
  All-tag_of_entries id ((j, bs) ∷ p) h = elim (Bool-cases (j == id)) [
    | inl same ↦
        rw (same, lookup) (rw (← (eq_iff j id).0 same) (All-left P (tag j bs) (entries p) h))
    | inr other ↦
        rw (other, lookup) (All-tag_of_entries id p (All-right P (tag j bs) (entries p) h))
  ]

  pub All-tag_of_found :
      (id : String) (bs : Builders) (p : List (String × Builders))
      → lookup id p ≡ some bs
      → All P (entries p)
      → All P (tag id bs)
  All-tag_of_found id bs p found h =
      subst (λ o. All P (tag id (or_empty o))) found (All-tag_of_entries id p h)

  pub All-entries-insert :
      (id : String) (bs : Builders) (p : List (String × Builders))
      → All P (tag id bs)
      → All P (entries p)
      → All P (entries (insert id bs p))
  unfolding insert
  All-entries-insert id bs [] h k = All-append P (tag id bs) [] h tt
  All-entries-insert id bs ((j, cs) ∷ p) h k = elim (Bool-cases (j == id)) [
    | inl same ↦
        rw (same, insert)
          (All-append P (tag j bs) (entries p) (rw ((eq_iff j id).0 same) h)
            (All-right P (tag j cs) (entries p) k))
    | inr other ↦
        rw (other, insert)
          (All-append P (tag j cs) _ (All-left P (tag j cs) (entries p) k)
            (All-entries-insert id bs p h (All-right P (tag j cs) (entries p) k)))
  ]

tag-bundle_id : (id : String) (bs : Builders) → All (λ t. t.bundle_id ≡ id) (tag id bs)
tag-bundle_id id [] = tt
tag-bundle_id id ((b, e) ∷ bs) = (refl, tag-bundle_id id bs)

-- No entry stands under a missing key.
pub entries_absent :
    (id : String) (p : List (String × Builders))
    → lookup id p ≡ none
    → All (λ t. t.bundle_id ≢ id) (entries p)
unfolding lookup
entries_absent id [] h = tt
entries_absent id ((j, bs) ∷ p) h = elim (Bool-cases (j == id)) [
  | inl same ↦ absurd (ground arith)
  | inr other ↦
      All-append _ (tag j bs) (entries p)
        (All-imp _ _ (tag j bs) (λ t e e'. ground (arith, eq_iff j id)) (tag-bundle_id j bs))
        (entries_absent id p (ground arith))
]

pub All-mp {κ} :
    (P : Tagged → Type κ) (Q : Tagged → Type 0) (ts : List Tagged)
    → All (λ t. Q t → P t) ts
    → All Q ts
    → All P ts
All-mp P Q [] f h = tt
All-mp P Q (t ∷ ts) f h = (f.0 h.0, All-mp P Q ts f.1 h.1)

module _ {κ} (P : Tagged → Type κ) where
  -- The entries under a key are replaced, and the others stay.
  pub All-entries-replace :
      (id : String) (bs : Builders) (p : List (String × Builders))
      → UniqueKeys p
      → All P (tag id bs)
      → All (λ t. t.bundle_id ≢ id → P t) (entries p)
      → All P (entries (insert id bs p))
  unfolding insert
  All-entries-replace id bs [] u h k = All-append P (tag id bs) [] h tt
  All-entries-replace id bs ((j, cs) ∷ p) u h k = elim (Bool-cases (j == id)) [
    | inl same ↦
        let absent = entries_absent id p (rw (← (eq_iff j id).0 same) u.0) in
        let kept =
          All-mp P (λ t. t.bundle_id ≢ id) (entries p) (All-right _ (tag j cs) (entries p) k)
            absent in
        rw (same, insert) (All-append P (tag j bs) (entries p) (rw ((eq_iff j id).0 same) h) kept)
    | inr other ↦
        let elsewhere =
          All-imp _ (λ t. t.bundle_id ≢ id) (tag j cs) (λ t e e'. ground (arith, eq_iff j id))
            (tag-bundle_id j cs) in
        let kept =
          All-mp P (λ t. t.bundle_id ≢ id) (tag j cs) (All-left _ (tag j cs) (entries p) k)
            elsewhere in
        rw (other, insert)
          (All-append P (tag j cs) _ kept
            (All-entries-replace id bs p u.1 h (All-right _ (tag j cs) (entries p) k)))
  ]

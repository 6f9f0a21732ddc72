-- ===== src/Tracker/Found.antt =====
-- One entry of the tracker's map of maps, by its bundle and its builder.
use mathlib.Core.List.{Memᴰ}
use mathlib.Core.List.Memᴰ
use bundle_broadcaster.Common.{
  none, some, [], ◌∷◌, String, List, Option, ◌≡◌, Bool, true, false, if◌then◌else◌, refl, arith,
  inl, inr, Bool-cases, Option-cases, eq_iff, ℕ, ◌==◌, ◌&&◌, lookup, insert, lookup-insert,
  nonempty,
}
use bundle_broadcaster.Tracker.Records.{
  PendingEntry, SimCacheEntry, enrich, enrich_if_cached, new_sim_entry,
}
use bundle_broadcaster.Tracker.Events.{SimEvent}
use bundle_broadcaster.Tracker.Loop.{
  Builders, or_empty, is_waiting, kept_builders, flushed_builders, kept_pending, flushed_pending,
  enrich_builders, on_sim, TrackerState,
}

abbrev pub find_entry : String → String → List (String × Builders) → Option PendingEntry
find_entry id builder pending = lookup builder (or_empty (lookup id pending))

-- An assignment `pending[id][builder] = e`, and what is found after it.
pub find_entry-insert :
    (id builder j b : String) (e : PendingEntry) (p : List (String × Builders))
    → find_entry j b (insert id (insert builder e (or_empty (lookup id p))) p)
      ≡ (if id == j && builder == b then some e else find_entry j b p)
find_entry-insert id builder j b e p = ground (
  arith,
  eq_iff id j,
  lookup-insert id j (insert builder e (or_empty (lookup id p))) p,
  lookup-insert builder b e (or_empty (lookup id p)),
)

lookup-enrich_builders :
    (b : String) (s : SimCacheEntry) (x : PendingEntry) (bs : Builders)
    → lookup b bs ≡ some x
    → lookup b (enrich_builders s bs) ≡ some (record x { bundle = enrich s x.bundle })
unfolding lookup enrich_builders
lookup-enrich_builders b s x [] h = ground arith
lookup-enrich_builders b s x ((c, y) ∷ bs) h =
    ground (arith, eq_iff c b, lookup-enrich_builders b s x bs)

nonempty_if_found :
    (b : String) (x : PendingEntry) (bs : Builders) → lookup b bs ≡ some x → nonempty bs ≡ true
unfolding lookup
nonempty_if_found b x [] h = ground arith
nonempty_if_found b x (e ∷ bs) h = refl

find_entry_absent :
    (id b : String) (p : List (String × Builders)) → lookup id p ≡ none → find_entry id b p ≡ none
unfolding lookup
find_entry_absent id b p h = rw h refl

-- A simulation result enriches the entry of its bundle, and leaves the others.
pub find_entry-on_sim :
    (e : SimEvent) (now : ℕ) (st : TrackerState) (id b : String) (x : PendingEntry)
    → find_entry id b st.pending ≡ some x
    → find_entry id b (on_sim e now st).pending
      ≡ some (
          if e.bundle_id == id
          then record x { bundle = enrich (new_sim_entry e now) x.bundle }
          else x)
unfolding on_sim
find_entry-on_sim e now st id b x h =
    let s = new_sim_entry e now in
    elim (Option-cases (lookup e.bundle_id st.pending)) [
      | inl absent ↦
          rw (absent, on_sim)
            (ground (arith, eq_iff e.bundle_id id, find_entry_absent id b st.pending))
      | inr (bs, found) ↦
          rw (found, on_sim, lookup-insert e.bundle_id id (enrich_builders s bs) st.pending)
            (ground (arith, eq_iff e.bundle_id id, lookup-enrich_builders b s x bs))
    ]

module _ (force : Bool) (now : ℕ) where
  lookup-kept_builders :
      (b : String) (x : PendingEntry) (bs : Builders)
      → lookup b bs ≡ some x
      → is_waiting force now x ≡ true
      → lookup b (kept_builders force now bs) ≡ some x
  unfolding lookup kept_builders
  lookup-kept_builders b x [] h k = ground arith
  lookup-kept_builders b x ((c, y) ∷ bs) h k = elim (Bool-cases (c == b)) [
    | inl same ↦ let e : y ≡ x = ground (arith) in ground (arith, e)
    | inr other ↦ ground (arith, lookup-kept_builders b x bs)
  ]

  flushed_builders-mem :
      (b : String) (x : PendingEntry) (sim : Option SimCacheEntry) (bs : Builders)
      → lookup b bs ≡ some x
      → is_waiting force now x ≡ false
      → Memᴰ (enrich_if_cached sim x.bundle) (flushed_builders force now sim bs)
  unfolding lookup flushed_builders
  flushed_builders-mem b x sim [] h k = absurd (ground arith)
  flushed_builders-mem b x sim ((c, y) ∷ bs) h k = elim (Bool-cases (c == b)) [
    | inl same ↦ let e : y ≡ x = ground (arith) in rw e (rw k (Memᴰ.head refl))
    | inr other ↦
        let more = flushed_builders-mem b x sim bs (ground arith) k in
        elim (Bool-cases (is_waiting force now y)) [
          | inl stays ↦ rw stays more
          | inr goes ↦ rw goes (Memᴰ.tail more)
        ]
  ]

  -- An entry that waits is found after flush.
  pub find_entry-kept_pending :
      (id b : String) (x : PendingEntry) (p : List (String × Builders))
      → find_entry id b p ≡ some x
      → is_waiting force now x ≡ true
      → find_entry id b (kept_pending force now p) ≡ some x
  unfolding lookup kept_pending
  find_entry-kept_pending id b x [] h k = h
  find_entry-kept_pending id b x ((j, bs) ∷ p) h k = elim (Bool-cases (j == id)) [
    | inl same ↦
        let kept = lookup-kept_builders b x bs (ground arith) k in
        rw (nonempty_if_found b x (kept_builders force now bs) kept) (ground (arith, kept))
    | inr other ↦ ground (arith, find_entry-kept_pending id b x p)
  ]

  -- Any other entry is among the records that flush writes.
  pub flushed_pending-mem :
      (id b : String) (x : PendingEntry) (cache : List (String × SimCacheEntry))
      (p : List (String × Builders))
      → find_entry id b p ≡ some x
      → is_waiting force now x ≡ false
      → Memᴰ (enrich_if_cached (lookup id cache) x.bundle) (flushed_pending force now cache p)
  unfolding lookup flushed_pending
  flushed_pending-mem id b x cache [] h k = absurd (ground arith)
  flushed_pending-mem id b x cache ((j, bs) ∷ p) h k = elim (Bool-cases (j == id)) [
    | inl same ↦
        let written = flushed_builders-mem b x (lookup id cache) bs (ground arith) k in
        rw ((eq_iff j id).0 same) (Memᴰ.append_left (flushed_pending force now cache p) written)
    | inr other ↦
        Memᴰ.append_right (flushed_builders force now (lookup j cache) bs)
          (flushed_pending-mem id b x cache p (ground arith) k)
  ]

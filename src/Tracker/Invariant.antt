-- ===== src/Tracker/Invariant.antt =====
-- What holds of the tracker's maps after any history.
use bundle_broadcaster.Common.{
  List, String, ℕ, ◌≡◌, ◌⊎◌, inl, inr, none, some, Option, UniqueKeys, All, refl, lookup,
  insert-UniqueKeys, [], arith, eq_iff, ◌∷◌, ◌≢◌, insert, All-imp, lookup-insert, Option-cases,
  false, Bool, All-keep,
}
use bundle_broadcaster.Tracker.Events.{HashEvent, SimEvent}
use bundle_broadcaster.Tracker.Records.{
  BundleRecord, PendingEntry, SimCacheEntry, enrich, enrich_if_cached, new_record, new_sim_entry,
}
use bundle_broadcaster.Tracker.Loop.{
  TrackerState, or_empty, on_hash, enrich_builders, on_sim, Builders, evict, flush, on_received,
  run, start_state, Disk, Received, hash_event, sim_event, ticked, flushed_pending,
}
use bundle_broadcaster.Tracker.Flush.{Tagged, entries, completed, tag, stays, entries-kept_pending}
use bundle_broadcaster.Tracker.Writing.{write_records-sim_cache}
use bundle_broadcaster.Tracker.Keys.{lookup-evict, evict-UniqueKeys, kept_pending-UniqueKeys}
use bundle_broadcaster.Tracker.Entries.{
  All-tag-insert, All-tag_of_entries, All-entries-insert, All-mp, entries_absent,
  All-entries-replace, All-tag_of_found,
}

-- The entry stands under its own bundle and builder, and has what the cache holds of its bundle.
pub record IsFiled (cache : List (String × SimCacheEntry)) (t : Tagged) : Type 0 where
  pub own_bundle : t.entry.bundle.bundle_id ≡ t.bundle_id
  pub own_builder : t.entry.bundle.builder ≡ t.builder
  pub complete : completed cache t ≡ t.entry.bundle

pub record Inv (st : TrackerState) : Type 0 where
  pub pending_keys : UniqueKeys st.pending
  pub cache_keys : UniqueKeys st.sim_cache
  pub filed : All (IsFiled st.sim_cache) (entries st.pending)

enrich_if_cached_twice :
    (o : Option SimCacheEntry) (r : BundleRecord)
    → enrich_if_cached o (enrich_if_cached o r) ≡ enrich_if_cached o r
unfolding enrich_if_cached enrich
enrich_if_cached_twice none r = refl
enrich_if_cached_twice (some s) r = refl

enrich_if_cached-names :
    (o : Option SimCacheEntry) (r : BundleRecord)
    → ((enrich_if_cached o r).bundle_id ≡ r.bundle_id)
      × ((enrich_if_cached o r).builder ≡ r.builder)
unfolding enrich_if_cached enrich
enrich_if_cached-names none r = (refl, refl)
enrich_if_cached-names (some s) r = (refl, refl)

-- A cache that has the same entry, or none, for the bundle leaves the entry filed.
IsFiled-transfer :
    (cache cache' : List (String × SimCacheEntry)) (t : Tagged)
    → (lookup t.bundle_id cache' ≡ none) ⊎ (lookup t.bundle_id cache' ≡ lookup t.bundle_id cache)
    → IsFiled cache t
    → IsFiled cache' t
unfolding enrich_if_cached
IsFiled-transfer cache cache' t (inl gone) f = record {
  own_bundle = f.own_bundle;
  own_builder = f.own_builder;
  complete = rw gone refl;
}
IsFiled-transfer cache cache' t (inr same) f = record {
  own_bundle = f.own_bundle;
  own_builder = f.own_builder;
  complete = rw same f.complete;
}

on_hash-Inv : (e : HashEvent) (a b : ℕ) (st : TrackerState) → Inv st → Inv (on_hash e a b st)
unfolding on_hash new_record
on_hash-Inv e a b st inv =
    let c = st.sim_cache in
    let r : BundleRecord = enrich_if_cached (lookup e.bundle_id c) (new_record e a) in
    let n : PendingEntry = record { bundle = r; received_at = b } in
    let names = enrich_if_cached-names (lookup e.bundle_id c) (new_record e a) in
    record {
      pending_keys = insert-UniqueKeys e.bundle_id _ st.pending inv.pending_keys;
      cache_keys = inv.cache_keys;
      filed =
          All-entries-insert (IsFiled c) e.bundle_id _ st.pending
            (All-tag-insert (IsFiled c) e.bundle_id e.builder n
              (or_empty (lookup e.bundle_id st.pending))
              (record {
                own_bundle = names.0;
                own_builder = names.1;
                complete = enrich_if_cached_twice (lookup e.bundle_id c) (new_record e a);
              })
              (All-tag_of_entries (IsFiled c) e.bundle_id st.pending inv.filed))
            inv.filed;
    }

-- The entries of a simulated bundle, with the simulation copied into them.
enrich_builders-IsFiled :
    (c c' : List (String × SimCacheEntry)) (id : String) (s : SimCacheEntry) (bs : Builders)
    → lookup id c' ≡ some s
    → All (IsFiled c) (tag id bs)
    → All (IsFiled c') (tag id (enrich_builders s bs))
unfolding enrich_builders enrich_if_cached enrich
enrich_builders-IsFiled c c' id s [] h k = tt
enrich_builders-IsFiled c c' id s ((b, e) ∷ bs) h k = (
  record { own_bundle = k.0.own_bundle; own_builder = k.0.own_builder; complete = rw h refl },
  enrich_builders-IsFiled c c' id s bs h k.1,
)

-- The entries of the other bundles see the same cache.
IsFiled-elsewhere :
    (id : String) (s : SimCacheEntry) (c : List (String × SimCacheEntry)) (ts : List Tagged)
    → All (IsFiled c) ts
    → All (λ t. t.bundle_id ≢ id → IsFiled (insert id s c) t) ts
IsFiled-elsewhere id s c ts h =
    All-imp _ _ ts
      (λ t f other.
        IsFiled-transfer c (insert id s c) t
          (inr (ground (arith, lookup-insert id t.bundle_id s c, eq_iff id t.bundle_id))) f)
      h

on_sim-Inv : (e : SimEvent) (now : ℕ) (st : TrackerState) → Inv st → Inv (on_sim e now st)
unfolding on_sim
on_sim-Inv e now st inv =
    let c = st.sim_cache in
    let id = e.bundle_id in
    let s : SimCacheEntry = new_sim_entry e now in
    let c' : List (String × SimCacheEntry) = insert id s c in
    let elsewhere = IsFiled-elsewhere id s c (entries st.pending) inv.filed in
    let keys = insert-UniqueKeys id s c inv.cache_keys in
    elim (Option-cases (lookup id st.pending)) [
      | inl absent ↦ rw absent (record {
        pending_keys = inv.pending_keys;
        cache_keys = keys;
        filed =
            All-mp (IsFiled c') (λ t. t.bundle_id ≢ id) (entries st.pending) elsewhere
              (entries_absent id st.pending absent);
      })
      | inr (bs, found) ↦
          let own = All-tag_of_found (IsFiled c) id bs st.pending found inv.filed in
          rw found (record {
            pending_keys = insert-UniqueKeys id _ st.pending inv.pending_keys;
            cache_keys = keys;
            filed =
                All-entries-replace (IsFiled c') id (enrich_builders s bs) st.pending
                  inv.pending_keys
                  (enrich_builders-IsFiled c c' id s bs
                    (ground (arith, lookup-insert id id s c, eq_iff id id)) own)
                  elsewhere;
          })
    ]

pub flush-Inv :
    (disk : Disk) (dir : String) (force : Bool) (now later : ℕ) (st : TrackerState)
    → Inv st
    → Inv (flush disk dir force now later st)
unfolding flush
flush-Inv disk dir force now later st inv =
    let c = st.sim_cache in
    let c' = evict later c in
    let filed =
      All-imp _ _ (entries st.pending)
        (λ t. IsFiled-transfer c c' t (lookup-evict t.bundle_id later c inv.cache_keys))
        inv.filed in
    let kept = All-keep (IsFiled c') (stays force now) (entries st.pending) filed in
    rw
      (write_records-sim_cache disk dir st
        (disk.order st.tried (flushed_pending force now c st.pending)))
      (record {
        pending_keys = kept_pending-UniqueKeys force now st.pending inv.pending_keys;
        cache_keys = evict-UniqueKeys later c inv.cache_keys;
        filed = rw (entries-kept_pending force now st.pending) kept;
      })

pub on_received-Inv :
    (disk : Disk) (dir : String) (st : TrackerState) (r : Received)
    → Inv st
    → Inv (on_received disk dir st r)
unfolding on_received
on_received-Inv disk dir st (hash_event e a b) inv = on_hash-Inv e a b st inv
on_received-Inv disk dir st (sim_event e now) inv = on_sim-Inv e now st inv
on_received-Inv disk dir st (ticked now later) inv = flush-Inv disk dir false now later st inv

run-keeps :
    (disk : Disk) (dir : String) (st : TrackerState) (rs : List Received)
    → Inv st
    → Inv (run disk dir st rs)
unfolding run
run-keeps disk dir st [] inv = inv
run-keeps disk dir st (r ∷ rs) inv =
    run-keeps disk dir (on_received disk dir st r) rs (on_received-Inv disk dir st r inv)

pub start_state-Inv : Inv start_state
unfolding start_state
start_state-Inv = record { pending_keys = tt; cache_keys = tt; filed = tt }

-- After any sequence of hash events, simulation results and ticks, no bundle and no cached
-- simulation stands twice, and every pending entry stands under the bundle and the builder that its
-- record names, and already has the cached simulation of its bundle, if there is one: to copy the
-- cached result into it, as flush does, would not change it. The two events may come in any order.
pub run-Inv : (disk : Disk) (dir : String) (rs : List Received) → Inv (run disk dir start_state rs)
run-Inv disk dir rs = run-keeps disk dir start_state rs start_state-Inv

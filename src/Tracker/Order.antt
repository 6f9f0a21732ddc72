-- ===== src/Tracker/Order.antt =====
-- The select of tracker.go may receive hash events and simulation results in any order.
pub mod Shuffles
use bundle_broadcaster.Common.{
  arith, subst, String, ℕ, List, [], ◌∷◌, ◌≡◌, ◌∙◌, refl, sym, ap, Option, none, some, ◌==◌,
  if◌then◌else◌, true, false, Bool-cases, Option-cases, inl, inr, insert, lookup, insert-insert,
  insert_comm, lookup-insert, eq_iff,
}
use bundle_broadcaster.Tracker.Events.{HashEvent, SimEvent}
use bundle_broadcaster.Tracker.Records.{
  BundleRecord, PendingEntry, SimCacheEntry, enrich, enrich_if_cached, new_record, new_sim_entry,
}
use bundle_broadcaster.Tracker.Loop.{
  Builders, TrackerState, or_empty, on_hash, enrich_builders, on_sim,
}

abbrev enriched : SimCacheEntry → PendingEntry → PendingEntry
enriched sim x = record x { bundle = enrich sim x.bundle }

enrich_builders-insert :
    (sim : SimCacheEntry) (b : String) (x : PendingEntry) (m : Builders)
    → enrich_builders sim (insert b x m)
      ≡ insert b (record x { bundle = enrich sim x.bundle }) (enrich_builders sim m)
unfolding insert enrich_builders
enrich_builders-insert sim b x [] = refl
enrich_builders-insert sim b x ((i, y) ∷ m) = elim (Bool-cases (i == b)) [
  | inl same ↦ rw (same, enrich_builders) refl
  | inr other ↦
      rw (other, enrich_builders)
        (ap (◌∷◌ (i, record y { bundle = enrich sim y.bundle })) (enrich_builders-insert sim b x m))
]

-- What was copied before is overwritten.
enrich-enrich_if_cached :
    (sim : SimCacheEntry) (o : Option SimCacheEntry) (r : BundleRecord)
    → enrich sim (enrich_if_cached o r) ≡ enrich sim r
unfolding enrich_if_cached enrich
enrich-enrich_if_cached sim none r = refl
enrich-enrich_if_cached sim (some old) r = refl

lookup-insert_self :
    {V : Type 0} (k : String) (v : V) (m : List (String × V)) → lookup k (insert k v m) ≡ some v
lookup-insert_self k v m = lookup-insert k k v m ∙ rw ((eq_iff k k).1 refl) refl

-- The two cases of the select, on the pending records alone.
abbrev add_hash :
    String → String → PendingEntry → List (String × Builders) → List (String × Builders)
add_hash k b x m = insert k (insert b x (or_empty (lookup k m))) m

abbrev add_sim : String → SimCacheEntry → List (String × Builders) → List (String × Builders)
add_sim j sim m = elim (lookup j m) [
  | none ↦ m
  | some builders ↦ insert j (enrich_builders sim builders) m
]

add_sim-some :
    (j : String) (sim : SimCacheEntry) (m : List (String × Builders)) (builders : Builders)
    → lookup j m ≡ some builders
    → add_sim j sim m ≡ insert j (enrich_builders sim builders) m
add_sim-some j sim m builders h = rw (h, add_sim) refl

add_sim-none :
    (j : String) (sim : SimCacheEntry) (m : List (String × Builders))
    → lookup j m ≡ none
    → add_sim j sim m ≡ m
add_sim-none j sim m h = rw (h, add_sim) refl

module _ (k b : String) (x : PendingEntry) (sim : SimCacheEntry)
    (m : List (String × Builders)) where
  -- What both orders give if the two events are about one bundle.
  abbrev joined : List (String × Builders)
  joined = insert k (insert b (enriched sim x) (enrich_builders sim (or_empty (lookup k m)))) m

  hash_first : add_sim k sim (add_hash k b x m) ≡ joined
  hash_first =
      let old = or_empty (lookup k m) in
      add_sim-some k sim (add_hash k b x m) (insert b x old)
        (lookup-insert_self k (insert b x old) m)
      ∙ insert-insert k (enrich_builders sim (insert b x old)) (insert b x old) m
      ∙ ap (λ v. insert k v m) (enrich_builders-insert sim b x old)

  sim_first : add_hash k b (enriched sim x) (add_sim k sim m) ≡ joined
  unfolding enrich_builders
  sim_first = elim (Option-cases (lookup k m)) [
    | inl missing ↦
        ap (add_hash k b (enriched sim x)) (add_sim-none k sim m missing) ∙ rw missing refl
    | inr (builders, there) ↦
        ap (add_hash k b (enriched sim x)) (add_sim-some k sim m builders there)
        ∙ insert-insert k _ (enrich_builders sim builders) m
        ∙ ap (λ o. insert k (insert b (enriched sim x) (or_empty o)) m)
            (lookup-insert_self k (enrich_builders sim builders) m)
        ∙ rw there refl
  ]

module _ (k j : String) (differ : (k == j) ≡ false) where
  differ' : (j == k) ≡ false
  differ' = ground (arith, eq_iff k j, eq_iff j k, differ)

  lookup-other : {V : Type 0} (v : V) (n : List (String × V)) → lookup j (insert k v n) ≡ lookup j n
  lookup-other v n = lookup-insert k j v n ∙ rw differ refl

  lookup-other' :
      {V : Type 0} (v : V) (n : List (String × V)) → lookup k (insert j v n) ≡ lookup k n
  lookup-other' v n = lookup-insert j k v n ∙ rw differ' refl

module _ (k j b : String) (x : PendingEntry) (sim : SimCacheEntry) (m : List (String × Builders))
    (differ : (k == j) ≡ false) where
  add_hash-add_sim : add_sim j sim (add_hash k b x m) ≡ add_hash k b x (add_sim j sim m)
  add_hash-add_sim = elim (Option-cases (lookup j m)) [
    | inl missing ↦
        add_sim-none j sim (add_hash k b x m) (lookup-other k j differ _ m ∙ missing)
        ∙ ap (add_hash k b x) (sym (add_sim-none j sim m missing))
    | inr (builders, there) ↦
        add_sim-some j sim (add_hash k b x m) builders (lookup-other k j differ _ m ∙ there)
        ∙ sym (insert_comm k j _ (enrich_builders sim builders) m builders differ there)
        ∙ ap (λ o. insert k (insert b x (or_empty o)) (insert j (enrich_builders sim builders) m))
            (sym (lookup-other' k j differ (enrich_builders sim builders) m))
        ∙ ap (add_hash k b x) (sym (add_sim-some j sim m builders there))
  ]

module _ (e : HashEvent) (stamped received : ℕ) (sim : SimCacheEntry) (st : TrackerState) where
  abbrev entry : Option SimCacheEntry → PendingEntry
  entry o = record { bundle = enrich_if_cached o (new_record e stamped); received_at = received }

  abbrev before : PendingEntry
  before = entry (lookup e.bundle_id st.sim_cache)

  -- The pending records after both events, by either order.
  abbrev SameOrders : String → Type 0
  SameOrders j =
      add_sim j sim (add_hash e.bundle_id e.builder before st.pending)
      ≡ add_hash e.bundle_id e.builder (entry (lookup e.bundle_id (insert j sim st.sim_cache)))
          (add_sim j sim st.pending)

  entry-enriched :
      enriched sim before ≡ entry (lookup e.bundle_id (insert e.bundle_id sim st.sim_cache))
  unfolding enrich_if_cached
  entry-enriched =
      ap (λ r. record { bundle = r; received_at = received })
        (enrich-enrich_if_cached sim (lookup e.bundle_id st.sim_cache) (new_record e stamped))
      ∙ ap entry (sym (lookup-insert_self e.bundle_id sim st.sim_cache))

  same_bundle : SameOrders e.bundle_id
  same_bundle =
      hash_first e.bundle_id e.builder before sim st.pending
      ∙ sym (sim_first e.bundle_id e.builder before sim st.pending)
      ∙ ap (λ x. add_hash e.bundle_id e.builder x (add_sim e.bundle_id sim st.pending))
          entry-enriched

  other_bundle : (j : String) → (e.bundle_id == j) ≡ false → SameOrders j
  other_bundle j differ =
      add_hash-add_sim e.bundle_id j e.builder before sim st.pending differ
      ∙ ap (λ o. add_hash e.bundle_id e.builder (entry o) (add_sim j sim st.pending))
          (sym (lookup-other' e.bundle_id j differ sim st.sim_cache))

  either_bundle : (j : String) → SameOrders j
  either_bundle j = elim (Bool-cases (e.bundle_id == j)) [
    | inl same ↦ subst SameOrders ((eq_iff e.bundle_id j).0 same) same_bundle
    | inr differ ↦ other_bundle j differ
  ]

-- A hash event and a simulation result may be received in either order.
pub on_sim-on_hash :
    (e : HashEvent) (stamped received : ℕ) (s : SimEvent) (now : ℕ) (st : TrackerState)
    → on_sim s now (on_hash e stamped received st) ≡ on_hash e stamped received (on_sim s now st)
unfolding on_sim on_hash
on_sim-on_hash e stamped received s now st =
    ap
      (λ p. record st {
        sim_cache = insert s.bundle_id (new_sim_entry s now) st.sim_cache;
        pending = p;
      })
      (either_bundle e stamped received (new_sim_entry s now) st s.bundle_id)

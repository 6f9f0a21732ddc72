-- ===== src/Tracker/Keys.antt =====
-- What flush leaves of the keys of the tracker's maps.
use bundle_broadcaster.Common.{
  String, ℕ, Bool, List, [], ◌∷◌, ◌≡◌, ◌⊎◌, inl, refl, none, arith, eq_iff, lookup, UniqueKeys,
}
use bundle_broadcaster.Tracker.Records.{SimCacheEntry}
use bundle_broadcaster.Tracker.Loop.{Builders, evict, kept_pending}

-- Eviction removes an entry or leaves it as it is.
pub lookup-evict :
    (k : String) (now : ℕ) (c : List (String × SimCacheEntry))
    → UniqueKeys c
    → (lookup k (evict now c) ≡ none) ⊎ (lookup k (evict now c) ≡ lookup k c)
unfolding lookup evict
lookup-evict k now [] u = inl refl
lookup-evict k now ((j, s) ∷ c) u = ground (arith, eq_iff j k, lookup-evict k now c u.1)

pub evict-UniqueKeys :
    (now : ℕ) (c : List (String × SimCacheEntry)) → UniqueKeys c → UniqueKeys (evict now c)
unfolding evict
evict-UniqueKeys now [] u = tt
evict-UniqueKeys now ((j, s) ∷ c) u =
    ground (arith, lookup-evict j now c u.1, evict-UniqueKeys now c u.1)

lookup-kept_pending :
    (force : Bool) (now : ℕ) (k : String) (p : List (String × Builders))
    → lookup k p ≡ none
    → lookup k (kept_pending force now p) ≡ none
unfolding lookup kept_pending
lookup-kept_pending force now k [] h = refl
lookup-kept_pending force now k ((j, bs) ∷ p) h = ground (arith, lookup-kept_pending force now k p)

pub kept_pending-UniqueKeys :
    (force : Bool) (now : ℕ) (p : List (String × Builders))
    → UniqueKeys p
    → UniqueKeys (kept_pending force now p)
unfolding kept_pending
kept_pending-UniqueKeys force now [] u = tt
kept_pending-UniqueKeys force now ((j, bs) ∷ p) u =
    ground (arith, lookup-kept_pending force now j p, kept_pending-UniqueKeys force now p u.1)

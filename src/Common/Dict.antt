-- ===== src/Common/Dict.antt =====
-- A Go map with string keys, as an association list that holds each key once.
use Prim.Native.String.{String}
use mathlib.Core.Path.{◌≡◌, refl, ap}
use mathlib.Core.Option.{Option, none, some}
use mathlib.Core.Bool.{false}
use mathlib.Core.List.{List, [], ◌∷◌}
use native.Mathlib.Omega.{arith}
use text.Mathlib.Text.{◌==◌}
use text.Mathlib.TextEquality.{eq_iff}
use bundle_broadcaster.Common.Tests.{if◌then◌else◌, Bool-cases}
use mathlib.Core.Logic.{inl, inr}

module _ {ℓ} {V : Type ℓ} where
  -- `m[key]`, with `none` for a missing key.
  unfoldable pub lookup : String → List (String × V) → Option V
  lookup key [] = none
  lookup key ((name, value) ∷ rest) = if name == key then some value else lookup key rest

  -- `m[key] = value`
  unfoldable pub insert : String → V → List (String × V) → List (String × V)
  insert key value [] = (key, value) ∷ []
  insert key value ((name, old) ∷ rest) =
      if name == key then (name, value) ∷ rest else (name, old) ∷ insert key value rest

  -- `delete(m, k)`
  unfoldable pub remove : String → List (String × V) → List (String × V)
  remove k [] = []
  remove k ((j, w) ∷ m) = if j == k then remove k m else (j, w) ∷ remove k m

  -- After an assignment, the assigned key has the new value and any other one what it had.
  pub lookup-insert :
      (key other : String) (value : V) (rest : List (String × V))
      → lookup other (insert key value rest)
        ≡ (if key == other then some value else lookup other rest)
  unfolding lookup insert
  lookup-insert key other value [] = refl
  lookup-insert key other value ((name, old) ∷ rest) =
      let later = lookup-insert key other value rest in
      elim (Bool-cases (name == key)) [
        | inl same ↦ ground (arith, eq_iff name key, eq_iff key other, eq_iff name other)
        | inr new ↦ ground (arith, later, eq_iff name key, eq_iff key other, eq_iff name other)
      ]

  pub lookup-remove :
      (k j : String) (m : List (String × V))
      → lookup j (remove k m) ≡ (if k == j then none else lookup j m)
  unfolding lookup remove
  lookup-remove k j [] = ground arith
  lookup-remove k j ((i, w) ∷ m) =
      ground (arith, eq_iff k j, eq_iff i k, eq_iff i j, lookup-remove k j m)

  -- Only the last assignment to a key counts.
  pub insert-insert :
      (k : String) (v w : V) (m : List (String × V)) → insert k v (insert k w m) ≡ insert k v m
  unfolding insert
  insert-insert k v w [] = rw ((eq_iff k k).1 refl) refl
  insert-insert k v w ((j, u) ∷ m) = elim (Bool-cases (j == k)) [
    | inl same ↦ rw (same, insert) (rw same refl)
    | inr other ↦ rw (other, insert) (rw other (ap (◌∷◌ (j, u)) (insert-insert k v w m)))
  ]

  -- An assignment to a key that is there commutes with one to another key.
  pub insert_comm :
      (k j : String) (v w : V) (m : List (String × V)) (old : V)
      → (k == j) ≡ false
      → lookup j m ≡ some old
      → insert k v (insert j w m) ≡ insert j w (insert k v m)
  unfolding insert lookup
  insert_comm k j v w [] old differ there = cc there
  insert_comm k j v w ((i, u) ∷ m) old differ there = elim (Bool-cases (i == j)) [
    | inl same ↦
        let apart : (i == k) ≡ false = ground (arith, eq_iff i j, eq_iff i k, eq_iff k j, differ) in
        rw (same, apart, insert) (rw same refl)
    | inr other ↦ elim (Bool-cases (i == k)) [
      | inl here ↦ rw (other, here, insert) (rw other refl)
      | inr neither ↦
          rw (other, neither, insert)
            (rw other
              (ap (◌∷◌ (i, u)) (insert_comm k j v w m old differ (rw (other, lookup) at there))))
    ]
  ]

  -- No key stands twice.
  abbrev pub UniqueKeys : List (String × V) → Type ℓ
  UniqueKeys [] = Unit
  UniqueKeys ((k, v) ∷ m) = (lookup k m ≡ none) × UniqueKeys m

  pub insert-UniqueKeys :
      (k : String) (v : V) (m : List (String × V)) → UniqueKeys m → UniqueKeys (insert k v m)
  unfolding insert
  insert-UniqueKeys k v [] u = (unfold lookup in refl, tt)
  insert-UniqueKeys k v ((j, w) ∷ m) u = elim (Bool-cases (j == k)) [
    | inl same ↦ rw (same, insert) u
    | inr other ↦
        rw (other, insert)
          (
            ground (arith, lookup-insert k j v m, eq_iff j k, eq_iff k j),
            insert-UniqueKeys k v m u.1,
          )
  ]

pub ruleset dict_laws = (lookup-insert, lookup-remove)

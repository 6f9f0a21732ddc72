-- ===== src/Relays/Registered.antt =====
-- Every relay of the registry follows its row of the table of supported fields.
use bundle_broadcaster.Common.{
  Bool-cases, inl, inr, ◌∙◌, String, ◌≡◌, refl, List, [], ◌∷◌, lookup, ◌==◌,
}
use bundle_broadcaster.Bundle.{IncomingBundle, RelayStrategy}
use bundle_broadcaster.Relays.Builders.{
  quasar, beaverbuild, bobthebuilder, eurekabuilder, rsyncbuilder, jetbldr, tbuilder, turbobuilder,
  snailbuilder, f1b, builder0x69, eigenphi, boba, gambit, payload, loki, buildai, penguin, btcs,
  bloxroute, blockbeelder,
}
use bundle_broadcaster.Relays.Registry.{relay_builders, get_relay_builder}
use bundle_broadcaster.Relays.Requests.{
  full-Sends, pinned-Sends, refunded-Sends, windowed-Sends, paid-Sends, plain-Sends, named-Sends,
  reverting-Sends,
}
use bundle_broadcaster.Relays.Support.{
  Columns, plain, reverting, windowed, refunded, pinned, Sends, support, Follows,
}

-- Two tables with the same names in the same order, related row by row.
abbrev Rows : List (String × Columns) → List (String × RelayStrategy) → Type 0
Rows [] [] = Unit
Rows [] (_ ∷ _) = ⊥
Rows (_ ∷ _) [] = ⊥
Rows ((n, columns) ∷ t) ((m, s) ∷ r) =
    ((n ≡ m) × ((b : IncomingBundle) → Sends columns s b)) × Rows t r

lookup-Rows :
    (name : String) (t : List (String × Columns)) (r : List (String × RelayStrategy))
    → Rows t r
    → Follows (lookup name t) (lookup name r)
unfolding lookup
lookup-Rows name [] [] h = tt
lookup-Rows name [] (_ ∷ _) h = absurd h
lookup-Rows name (_ ∷ _) [] h = absurd h
lookup-Rows name ((n, columns) ∷ t) ((m, s) ∷ r) ((e, sends), rest) =
    rw e (elim (Bool-cases (m == name)) [
      | inl hit ↦ rw hit sends
      | inr miss ↦ rw miss (lookup-Rows name t r rest)
    ])

-- Two relays whose methods are the same are sent the same.
Sends-same :
    (columns : Columns) (s t : RelayStrategy) (b : IncomingBundle)
    → t b ≡ s b
    → Sends columns s b
    → Sends columns t b
Sends-same columns s t b e h = record {
  params = h.params;
  sent = e ∙ h.sent;
  txs = h.txs;
  block = h.block;
  optional = h.optional;
}

rsyncbuilder-Sends : (b : IncomingBundle) → Sends pinned rsyncbuilder b
unfolding quasar rsyncbuilder
rsyncbuilder-Sends b = Sends-same pinned quasar rsyncbuilder b refl (pinned-Sends b)

tbuilder-Sends : (b : IncomingBundle) → Sends refunded tbuilder b
unfolding jetbldr tbuilder
tbuilder-Sends b = Sends-same refunded jetbldr tbuilder b refl (refunded-Sends b)

turbobuilder-Sends : (b : IncomingBundle) → Sends windowed turbobuilder b
unfolding eurekabuilder turbobuilder
turbobuilder-Sends b = Sends-same windowed eurekabuilder turbobuilder b refl (windowed-Sends b)

snailbuilder-Sends : (b : IncomingBundle) → Sends windowed snailbuilder b
unfolding eurekabuilder snailbuilder
snailbuilder-Sends b = Sends-same windowed eurekabuilder snailbuilder b refl (windowed-Sends b)

bobthebuilder-Sends : (b : IncomingBundle) → Sends plain bobthebuilder b
unfolding beaverbuild bobthebuilder
bobthebuilder-Sends b = Sends-same plain beaverbuild bobthebuilder b refl (plain-Sends b)

builder0x69-Sends : (b : IncomingBundle) → Sends reverting builder0x69 b
unfolding f1b builder0x69
builder0x69-Sends b = Sends-same reverting f1b builder0x69 b refl (reverting-Sends b)

eigenphi-Sends : (b : IncomingBundle) → Sends reverting eigenphi b
unfolding f1b eigenphi
eigenphi-Sends b = Sends-same reverting f1b eigenphi b refl (reverting-Sends b)

boba-Sends : (b : IncomingBundle) → Sends reverting boba b
unfolding f1b boba
boba-Sends b = Sends-same reverting f1b boba b refl (reverting-Sends b)

gambit-Sends : (b : IncomingBundle) → Sends reverting gambit b
unfolding f1b gambit
gambit-Sends b = Sends-same reverting f1b gambit b refl (reverting-Sends b)

payload-Sends : (b : IncomingBundle) → Sends reverting payload b
unfolding f1b payload
payload-Sends b = Sends-same reverting f1b payload b refl (reverting-Sends b)

loki-Sends : (b : IncomingBundle) → Sends reverting loki b
unfolding f1b loki
loki-Sends b = Sends-same reverting f1b loki b refl (reverting-Sends b)

buildai-Sends : (b : IncomingBundle) → Sends reverting buildai b
unfolding f1b buildai
buildai-Sends b = Sends-same reverting f1b buildai b refl (reverting-Sends b)

penguin-Sends : (b : IncomingBundle) → Sends reverting penguin b
unfolding f1b penguin
penguin-Sends b = Sends-same reverting f1b penguin b refl (reverting-Sends b)

btcs-Sends : (b : IncomingBundle) → Sends reverting btcs b
unfolding f1b btcs
btcs-Sends b = Sends-same reverting f1b btcs b refl (reverting-Sends b)

bloxroute-Sends : (b : IncomingBundle) → Sends reverting bloxroute b
unfolding f1b bloxroute
bloxroute-Sends b = Sends-same reverting f1b bloxroute b refl (reverting-Sends b)

blockbeelder-Sends : (b : IncomingBundle) → Sends reverting blockbeelder b
unfolding f1b blockbeelder
blockbeelder-Sends b = Sends-same reverting f1b blockbeelder b refl (reverting-Sends b)

-- A table and a registry that agree, one row at a time.
infixr 4 ◌▹◌
◌▹◌ : {P Q : Type 0} → P → Q → P × Q
p ▹ q = (p, q)

support-Rows : Rows support relay_builders
unfolding relay_builders
support-Rows =
    (refl, named-Sends)
    ▹ (refl, paid-Sends)
    ▹ (refl, pinned-Sends)
    ▹ (refl, bobthebuilder-Sends)
    ▹ (refl, plain-Sends)
    ▹ (refl, full-Sends)
    ▹ (refl, windowed-Sends)
    ▹ (refl, rsyncbuilder-Sends)
    ▹ (refl, refunded-Sends)
    ▹ (refl, tbuilder-Sends)
    ▹ (refl, turbobuilder-Sends)
    ▹ (refl, snailbuilder-Sends)
    ▹ (refl, reverting-Sends)
    ▹ (refl, builder0x69-Sends)
    ▹ (refl, eigenphi-Sends)
    ▹ (refl, boba-Sends)
    ▹ (refl, gambit-Sends)
    ▹ (refl, payload-Sends)
    ▹ (refl, loki-Sends)
    ▹ (refl, buildai-Sends)
    ▹ (refl, penguin-Sends)
    ▹ (refl, btcs-Sends)
    ▹ (refl, bloxroute-Sends)
    ▹ (refl, blockbeelder-Sends)
    ▹ tt

-- Whatever the name, a relay is registered exactly if the table of supported fields has a row for it,
-- and then every bundle makes an eth_sendBundle request that holds the bundle's transactions, its
-- block number in hexadecimal, and an optional field exactly where the row has it and the bundle
-- gives it a value.
pub get_relay_builder-Follows :
    (name : String) → Follows (lookup name support) (get_relay_builder name relay_builders)
unfolding get_relay_builder
get_relay_builder-Follows name = lookup-Rows name support relay_builders support-Rows

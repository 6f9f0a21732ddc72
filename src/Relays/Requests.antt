-- ===== src/Relays/Requests.antt =====
-- The requests of strategies/relays follow the table of supported fields.
use bundle_broadcaster.Common.{◌≡◌, refl, none, lookup, if◌then◌else◌}
use bundle_broadcaster.Bundle.{IncomingBundle}
use bundle_broadcaster.Relays.Payload.{base_payload, lookup-put_if, lookup-put_percent}
use bundle_broadcaster.Relays.Builders.{
  flashbots, titanbuilder, quasar, beaverbuild, buildernet, eurekabuilder, jetbldr, f1b,
}
use bundle_broadcaster.Relays.Support.{
  Field, key, field_value, params_of, plain, named, reverting, windowed, paid, refunded, pinned,
  full, Sends, builders,
}

ruleset payload_laws = (lookup-put_if, lookup-put_percent)

pub full-Sends : (b : IncomingBundle) → Sends full buildernet b
unfolding buildernet base_payload lookup
full-Sends b = record {
  params = params_of (buildernet b);
  sent = refl;
  txs = simp payload_laws;
  block = simp payload_laws;
  optional = go;
}
  where
    go :
        (f : Field)
        → lookup (key f) (params_of (buildernet b)) ≡ (if full f then field_value f b else none)
    go builders = simp payload_laws
    go _ = simp payload_laws

pub pinned-Sends : (b : IncomingBundle) → Sends pinned quasar b
unfolding quasar base_payload lookup
pinned-Sends b = record {
  params = params_of (quasar b);
  sent = refl;
  txs = simp payload_laws;
  block = simp payload_laws;
  optional = go;
}
  where
    go :
        (f : Field)
        → lookup (key f) (params_of (quasar b)) ≡ (if pinned f then field_value f b else none)
    go builders = simp payload_laws
    go _ = simp payload_laws

pub refunded-Sends : (b : IncomingBundle) → Sends refunded jetbldr b
unfolding jetbldr base_payload lookup
refunded-Sends b = record {
  params = params_of (jetbldr b);
  sent = refl;
  txs = simp payload_laws;
  block = simp payload_laws;
  optional = go;
}
  where
    go :
        (f : Field)
        → lookup (key f) (params_of (jetbldr b)) ≡ (if refunded f then field_value f b else none)
    go builders = simp payload_laws
    go _ = simp payload_laws

pub windowed-Sends : (b : IncomingBundle) → Sends windowed eurekabuilder b
unfolding eurekabuilder base_payload lookup
windowed-Sends b = record {
  params = params_of (eurekabuilder b);
  sent = refl;
  txs = simp payload_laws;
  block = simp payload_laws;
  optional = go;
}
  where
    go :
        (f : Field)
        → lookup (key f) (params_of (eurekabuilder b))
          ≡ (if windowed f then field_value f b else none)
    go builders = simp payload_laws
    go _ = simp payload_laws

pub paid-Sends : (b : IncomingBundle) → Sends paid titanbuilder b
unfolding titanbuilder base_payload lookup
paid-Sends b = record {
  params = params_of (titanbuilder b);
  sent = refl;
  txs = simp payload_laws;
  block = simp payload_laws;
  optional = go;
}
  where
    go :
        (f : Field)
        → lookup (key f) (params_of (titanbuilder b)) ≡ (if paid f then field_value f b else none)
    go builders = simp payload_laws
    go _ = simp payload_laws

pub plain-Sends : (b : IncomingBundle) → Sends plain beaverbuild b
unfolding beaverbuild base_payload lookup
plain-Sends b = record {
  params = params_of (beaverbuild b);
  sent = refl;
  txs = refl;
  block = refl;
  optional = go;
}
  where
    go :
        (f : Field)
        → lookup (key f) (params_of (beaverbuild b)) ≡ (if plain f then field_value f b else none)
    go builders = refl
    go _ = refl

pub named-Sends : (b : IncomingBundle) → Sends named flashbots b
unfolding flashbots base_payload lookup
named-Sends b = record {
  params = params_of (flashbots b);
  sent = refl;
  txs = refl;
  block = refl;
  optional = go;
}
  where
    go :
        (f : Field)
        → lookup (key f) (params_of (flashbots b)) ≡ (if named f then field_value f b else none)
    go builders = refl
    go _ = refl

pub reverting-Sends : (b : IncomingBundle) → Sends reverting f1b b
unfolding f1b base_payload lookup
reverting-Sends b = record {
  params = params_of (f1b b);
  sent = refl;
  txs = simp payload_laws;
  block = simp payload_laws;
  optional = go;
}
  where
    go :
        (f : Field)
        → lookup (key f) (params_of (f1b b)) ≡ (if reverting f then field_value f b else none)
    go builders = simp payload_laws
    go _ = simp payload_laws

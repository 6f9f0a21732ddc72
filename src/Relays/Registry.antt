-- ===== src/Relays/Registry.antt =====
-- strategies/registry.go and strategies/relays/register.go: the map of registered relays, without its
-- lock, as `init` fills it.
use bundle_broadcaster.Common.{String, List, [], Option, lookup, insert}
use bundle_broadcaster.Bundle.{RelayStrategy}
use bundle_broadcaster.Relays.Builders.{
  flashbots, titanbuilder, quasar, bobthebuilder, beaverbuild, buildernet, eurekabuilder,
  rsyncbuilder, jetbldr, tbuilder, turbobuilder, snailbuilder, f1b, builder0x69, eigenphi, boba,
  gambit, payload, loki, buildai, penguin, btcs, bloxroute, blockbeelder,
}

abbrev pub RelayBuilders : Type 0
RelayBuilders = List (String × RelayStrategy)

unfoldable pub register_relay : String → RelayStrategy → RelayBuilders → RelayBuilders
register_relay name builder relay_builders = insert name builder relay_builders

unfoldable pub get_relay_builder : String → RelayBuilders → Option RelayStrategy
get_relay_builder name relay_builders = lookup name relay_builders

infixl 3 ◌⨟◌
abbrev ◌⨟◌ : RelayBuilders → (RelayBuilders → RelayBuilders) → RelayBuilders
m ⨟ f = f m

-- `func init()` of register.go, from the empty map of registry.go.
unfoldable pub relay_builders : RelayBuilders
unfolding register_relay insert
relay_builders =
    []
    ⨟ register_relay "flashbots" flashbots
    ⨟ register_relay "titanbuilder" titanbuilder
    ⨟ register_relay "quasar" quasar
    ⨟ register_relay "bobthebuilder" bobthebuilder
    ⨟ register_relay "beaverbuild" beaverbuild
    ⨟ register_relay "buildernet" buildernet
    ⨟ register_relay "eurekabuilder" eurekabuilder
    ⨟ register_relay "rsyncbuilder" rsyncbuilder
    ⨟ register_relay "jetbldr" jetbldr
    ⨟ register_relay "tbuilder" tbuilder
    ⨟ register_relay "turbobuilder" turbobuilder
    ⨟ register_relay "snailbuilder" snailbuilder
    ⨟ register_relay "f1b" f1b
    ⨟ register_relay "builder0x69" builder0x69
    ⨟ register_relay "eigenphi" eigenphi
    ⨟ register_relay "boba" boba
    ⨟ register_relay "gambit" gambit
    ⨟ register_relay "payload" payload
    ⨟ register_relay "loki" loki
    ⨟ register_relay "buildai" buildai
    ⨟ register_relay "penguin" penguin
    ⨟ register_relay "btcs" btcs
    ⨟ register_relay "bloxroute" bloxroute
    ⨟ register_relay "blockbeelder" blockbeelder

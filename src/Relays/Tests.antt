-- ===== src/Relays/Tests.antt =====
-- The request that one relay is sent.
use Prim.Native.String
use bundle_broadcaster.Common.{String, lookup, parse_hex, some, arith, ◌≡◌}
use bundle_broadcaster.Relays.Registry.{relay_builders, get_relay_builder}
use bundle_broadcaster.Relays.Support.{Follows, support}
use bundle_broadcaster.Samples.{bundle}
use bundle_broadcaster.Relays.Blocks.{parse_hex-block_number}
use bundle_broadcaster.Relays.Payload.{block_number}
use bundle_broadcaster.Relays.Registered.{get_relay_builder-Follows}

get_relay_builder-Follows_example :
    Follows (lookup "quasar" support) (get_relay_builder "quasar" relay_builders)
get_relay_builder-Follows_example = get_relay_builder-Follows "quasar"

parse_hex-block_number_example :
    (digits : String) × (block_number bundle ≡ String.◌++◌ "0x" digits)
    × (parse_hex digits ≡ some bundle.target_block)
parse_hex-block_number_example = parse_hex-block_number bundle (omega arith)

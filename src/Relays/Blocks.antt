-- ===== src/Relays/Blocks.antt =====
-- The text of a bundle's block number.
use Prim.Native.String
use bundle_broadcaster.Common.{String, ◌≡◌, ◌<◌, some, refl, parse_hex, hex, parse_hex-hex}
use bundle_broadcaster.Bundle.{IncomingBundle}
use bundle_broadcaster.Relays.Payload.{block_number}

-- The block number of every request, for a target block below 2 ^ 64, is 0x and hexadecimal digits, and the
-- digits are read back as the target block.
pub parse_hex-block_number :
    (b : IncomingBundle)
    → b.target_block < 18446744073709551616
    → (digits : String) × (block_number b ≡ String.◌++◌ "0x" digits)
      × (parse_hex digits ≡ some b.target_block)
unfolding block_number
parse_hex-block_number b h = (hex b.target_block, refl, parse_hex-hex b.target_block h)

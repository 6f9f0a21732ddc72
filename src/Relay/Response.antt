-- ===== src/Relay/Response.antt =====
-- parseBundleHash of relay_client.go.
use text.Mathlib.Text.{starts_with}
use bundle_broadcaster.Common.{String, not, Option, none, some, if◌then◌else◌, ◌==◌}

-- The JSON value under "result", as far as the two attempts to decode it see.
pub data RawMessage : Type 0 where
  -- An object, with the string under "bundleHash", "" if it has none.
  object : String → RawMessage
  -- An object whose "bundleHash" is no string.
  bad_object : RawMessage
  json_text : String → RawMessage
  null : RawMessage
  -- A number, a Boolean or an array.
  other : RawMessage

-- `json.Unmarshal(raw, &obj)`, and the field that it sets. `none` is an error.
unfoldable pub unmarshal_bundle_hash : RawMessage → Option String
unmarshal_bundle_hash (object hash) = some hash
unmarshal_bundle_hash null = some ""
unmarshal_bundle_hash _ = none

-- `json.Unmarshal(raw, &s)` for a string.
unfoldable pub unmarshal_string : RawMessage → Option String
unmarshal_string (json_text s) = some s
unmarshal_string null = some ""
unmarshal_string _ = none

unfoldable pub plain_hash : Option String → String
plain_hash none = ""
plain_hash (some s) = if starts_with s "0x" then s else ""

unfoldable pub hash_of_raw : RawMessage → String
unfolding unmarshal_bundle_hash unmarshal_string plain_hash
hash_of_raw raw = elim (unmarshal_bundle_hash raw) [
  | none ↦ plain_hash (unmarshal_string raw)
  | some hash ↦ if not (hash == "") then hash else plain_hash (unmarshal_string raw)
]

-- `unmarshal` decodes the body; `none` is an error or a body with no "result".
unfoldable pub parse_bundle_hash : (String → Option RawMessage) → String → String
unfolding hash_of_raw
parse_bundle_hash unmarshal body = elim (unmarshal body) [ none ↦ "" | some raw ↦ hash_of_raw raw ]

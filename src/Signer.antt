-- ===== src/Signer.antt =====
-- signer.go: the key and the X-Flashbots-Signature header. go-ethereum's crypto is `Crypto`.
pub mod Header
mod Tests
use Prim.Native.String
use bundle_broadcaster.Common.{
  ℕ, String, Option, none, some, List, decode_hex, encode_hex, trim_prefix, decimal_ℕ,
}

pub record Crypto : Type 1 where
  pub PrivateKey : Type 0
  pub to_ecdsa : List ℕ → Option PrivateKey
  pub address_hex : PrivateKey → String
  pub keccak256 : String → List ℕ
  pub sign : List ℕ → PrivateKey → Option (List ℕ)

pub record Signer (c : Crypto) : Type 0 where
  pub private_key : c.PrivateKey
  pub address : String

module _ (c : Crypto) where
  unfoldable pub new_signer : String → Option (Signer c)
  new_signer private_key_hex = elim (decode_hex (trim_prefix private_key_hex "0x")) [
    | none ↦ none
    | some key_bytes ↦ elim (c.to_ecdsa key_bytes) [
      | none ↦ none
      | some key ↦ some (record { private_key = key; address = c.address_hex key })
    ]
  ]

  -- The message of personal_sign (EIP-191) for the hash of a body.
  unfoldable pub personal_message : String → String
  personal_message hash_hex =
      String.◌++◌ "\u{19}Ethereum Signed Message:\n"
        (String.◌++◌ (decimal_ℕ (String.len hash_hex)) hash_hex)

  unfoldable pub sign_body : Signer c → String → Option String
  unfolding personal_message
  sign_body s body =
      let hash_hex = String.◌++◌ "0x" (encode_hex (c.keccak256 body)) in
      elim (c.sign (c.keccak256 (personal_message hash_hex)) s.private_key) [
        | none ↦ none
        | some signature ↦ some (String.◌++◌ s.address (String.◌++◌ ":0x" (encode_hex signature)))
      ]

-- ===== src/Signer/Tests.antt =====
-- A signer with a fixed hash and signature.
use bundle_broadcaster.Common.{
  ◌∷◌, [], some, refl, zero, suc, All, IsByte, encode_hex, Option, none, ◌≡◌, subst, arith, ℕ, List,
  replicate,
}
use bundle_broadcaster.Signer.{Crypto, Signer, sign_body}
use bundle_broadcaster.Signer.Header.{sign_body-Signed, Carries}

abbrev digest : List ℕ
digest = replicate 32 7

sevens-IsByte : (n : ℕ) → All IsByte (replicate n 7)
sevens-IsByte zero = tt
sevens-IsByte (suc n) = (omega arith, sevens-IsByte n)

abbrev secp : Crypto
secp = record {
  PrivateKey = Unit;
  to_ecdsa = λ bytes. some tt;
  address_hex = λ key. "0xsigner";
  keccak256 = λ message. digest;
  sign = λ hash key. some (1 ∷ 255 ∷ []);
}

abbrev wallet : Signer secp
wallet = record { private_key = tt; address = "0xsigner" }

signature-IsByte :
    (hash signature : List ℕ) → secp.sign hash tt ≡ some signature → All IsByte signature
signature-IsByte hash signature made =
    subst (λ (o : Option (List ℕ)). elim o [ none ↦ Unit | some x ↦ All IsByte x ]) made
      (omega arith, (omega arith, tt))

sign_body-Signed_example :
    Carries secp wallet
      "\u{19}Ethereum Signed Message:\n660x0707070707070707070707070707070707070707070707070707070707070707"
      "0xsigner:0x01ff"
unfolding sign_body encode_hex
sign_body-Signed_example =
    sign_body-Signed secp wallet "{}" "0xsigner:0x01ff" refl (sevens-IsByte 32) signature-IsByte
      refl

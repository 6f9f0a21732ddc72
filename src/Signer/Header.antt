-- ===== src/Signer/Header.antt =====
-- signer.go: what Sign puts into the header X-Flashbots-Signature.
use Prim.Native.String
use native.Mathlib.Omega.{arith}
use mathlib.Core.Option.{some-injective, none-ne-some}
use text.Mathlib.TextPositions.{len-append}
use bundle_broadcaster.Common.{
  List, String, ℕ, ◌≡◌, ◌∙◌, sym, ap, subst, refl, none, some, Option-cases, inl, inr, decode_hex,
  encode_hex, trim_prefix, trim_prefix-append, length, len-encode_hex, IsByte,
  decode_hex-encode_hex, All, decimal_ℕ,
}
use bundle_broadcaster.Signer.{Crypto, Signer, sign_body, personal_message}

decimal_sixty_six : decimal_ℕ 66 ≡ "66"
unfolding decimal_ℕ
decimal_sixty_six = refl

module _ (c : Crypto) where
  -- The hash of the body as it stands in the message that is signed.
  abbrev pub body_hash : String → String
  body_hash body = String.◌++◌ "0x" (encode_hex (c.keccak256 body))

  sign_body-signed :
      (s : Signer c) (body : String) (signature : List ℕ)
      → c.sign (c.keccak256 (personal_message c (body_hash body))) s.private_key ≡ some signature
      → sign_body c s body ≡ some (String.◌++◌ s.address (String.◌++◌ ":0x" (encode_hex signature)))
  unfolding sign_body
  sign_body-signed s body signature signed = rw (signed, sign_body) refl

  sign_body-failed :
      (s : Signer c) (body : String)
      → c.sign (c.keccak256 (personal_message c (body_hash body))) s.private_key ≡ none
      → sign_body c s body ≡ none
  unfolding sign_body
  sign_body-failed s body failed = rw (failed, sign_body) refl

  read_signature :
      (address : String) (signature : List ℕ)
      → All IsByte signature
      → decode_hex (
          trim_prefix
            (trim_prefix (String.◌++◌ address (String.◌++◌ ":0x" (encode_hex signature))) address)
            ":0x")
        ≡ some signature
  read_signature address signature bytes =
      rw
        (
          trim_prefix-append address (String.◌++◌ ":0x" (encode_hex signature)),
          trim_prefix-append ":0x" (encode_hex signature),
        )
        (decode_hex-encode_hex signature bytes)

  -- The header is the address of the signer and the signature of `message`, in hexadecimal.
  abbrev pub Carries : Signer c → String → String → Type 0
  Carries s message header =
      (signature : List ℕ) × ((c.sign (c.keccak256 message) s.private_key ≡ some signature)
        × ((header ≡ String.◌++◌ s.address (String.◌++◌ ":0x" (encode_hex signature)))
            × (decode_hex (trim_prefix (trim_prefix header s.address) ":0x") ≡ some signature)))

  carry :
      (s : Signer c) (message header : String) (signature : List ℕ)
      → c.sign (c.keccak256 message) s.private_key ≡ some signature
      → All IsByte signature
      → header ≡ String.◌++◌ s.address (String.◌++◌ ":0x" (encode_hex signature))
      → Carries s message header
  carry s message header signature signed bytes shown =
      let read =
        ap (λ h. decode_hex (trim_prefix (trim_prefix h s.address) ":0x")) shown
        ∙ read_signature s.address signature bytes in
      (signature, (signed, (shown, read)))

  sign_body-Carries :
      (s : Signer c) (body header : String)
      → ((hash signature : List ℕ)
          → c.sign hash s.private_key ≡ some signature
          → All IsByte signature)
      → sign_body c s body ≡ some header
      → Carries s (personal_message c (body_hash body)) header
  sign_body-Carries s body header in_bytes returned =
      elim (Option-cases
        (c.sign (c.keccak256 (personal_message c (body_hash body))) s.private_key)) [
          | inl failed ↦
              absurd (none-ne-some header (sym (sign_body-failed s body failed) ∙ returned))
          | inr (signature, signed) ↦
              carry s (personal_message c (body_hash body)) header signature signed
                (in_bytes _ signature signed)
                (some-injective header _ (sym returned ∙ sign_body-signed s body signature signed))
        ]

  -- The message of a 32-byte hash, as EIP-191 writes it: 66 is the length of `0x` and 64 digits.
  personal_message_lem :
      (body : String)
      → length (c.keccak256 body) ≡ 32
      → All IsByte (c.keccak256 body)
      → personal_message c (body_hash body)
        ≡ String.◌++◌ "\u{19}Ethereum Signed Message:\n" (String.◌++◌ "66" (body_hash body))
  unfolding personal_message
  personal_message_lem body long bytes =
      let hash = c.keccak256 body in
      let sized : String.len (body_hash body) ≡ 66 =
        len-append "0x" (encode_hex hash) ∙ omega (arith, len-encode_hex hash bytes, long) in
      ap
        (λ n.
          String.◌++◌ "\u{19}Ethereum Signed Message:\n"
            (String.◌++◌ (decimal_ℕ n) (body_hash body)))
        sized
      ∙ ap (λ t. String.◌++◌ "\u{19}Ethereum Signed Message:\n" (String.◌++◌ t (body_hash body)))
          decimal_sixty_six

  -- If Keccak256Hash of the body is 32 bytes, and crypto.Sign returns bytes, a header that Sign returns
  -- is the address of the signer, `:0x` and hexadecimal digits, which read back as the signature that
  -- crypto.Sign makes with the key for the hash of the text "\x19Ethereum Signed Message:\n66", `0x` and
  -- the 64 digits of the hash of the body.
  pub sign_body-Signed :
      (s : Signer c) (body header : String)
      → length (c.keccak256 body) ≡ 32
      → All IsByte (c.keccak256 body)
      → ((hash signature : List ℕ)
          → c.sign hash s.private_key ≡ some signature
          → All IsByte signature)
      → sign_body c s body ≡ some header
      → Carries s
          (String.◌++◌ "\u{19}Ethereum Signed Message:\n"
            (String.◌++◌ "66" (String.◌++◌ "0x" (encode_hex (c.keccak256 body)))))
          header
  sign_body-Signed s body header long bytes in_bytes returned =
      subst (λ m. Carries s m header) (personal_message_lem body long bytes)
        (sign_body-Carries s body header in_bytes returned)

-- ===== src/Transaction/Hashes.antt =====
-- relay_client.go: computeLastTxHash and decodeTxDetails read the same transaction.
use Prim.Native.String.{◌∷◌, []}
use Prim.Native.String
use Prim.Native.String.append
use text.Mathlib.Text.{starts_with}
use text.Mathlib.TextEquality.{starts_with_iff}
use mathlib.Core.Option.{some-injective, none-ne-some}
use bundle_broadcaster.Common.{
  List, ◌++◌, String, ℕ, ◌≡◌, ◌∙◌, sym, ap, subst, refl, arith, none, some, Bool-cases,
  Option-cases, is_some, true, false, inl, inr, decode_hex, trim_prefix, ◌⊎◌,
}
use bundle_broadcaster.Transaction.{
  Transaction, Ethereum, TxDetail, last_tx, compute_last_tx_hash, tx_detail, decode_tx,
  decode_tx_details,
}

prefix-letters : (s : String) → String.◌++◌ "0X" s ≡ "0" ∷ "X" ∷ s
prefix-letters s =
    append.cons "0" "X" s ∙ ap (◌∷◌ "0") (append.cons "X" "" s ∙ ap (◌∷◌ "X") (append.nil s))

decode_hex-letters : (s : String) → decode_hex ("0" ∷ "X" ∷ s) ≡ none
unfolding decode_hex
decode_hex-letters s = refl

decode_hex-prefix : (s : String) → decode_hex (String.◌++◌ "0X" s) ≡ none
decode_hex-prefix s = ap decode_hex (prefix-letters s) ∙ decode_hex-letters s

-- Text that is hexadecimal has no 0X before it.
trim_prefix-hex : (s : String) (bytes : List ℕ) → decode_hex s ≡ some bytes → trim_prefix s "0X" ≡ s
unfolding trim_prefix
trim_prefix-hex s bytes read = elim (Bool-cases (starts_with s "0X")) [
  | inr bare ↦ rw bare refl
  | inl upper ↦
      let split = (starts_with_iff s "0X").0 upper in
      let unread = subst (λ t. decode_hex t ≡ none) split.1 (decode_hex-prefix split.0) in
      ground (arith, unread, read)
]

last_tx-append :
    (raws : List String) (raw : String) → last_tx (raws ++ List.◌∷◌ raw List.[]) ≡ some raw
unfolding last_tx
last_tx-append List.[] raw = refl
last_tx-append (List.◌∷◌ r List.[]) raw = refl
last_tx-append (List.◌∷◌ r (List.◌∷◌ q rest)) raw = last_tx-append (List.◌∷◌ q rest) raw

module _ (eth : Ethereum) where
  decode_tx-signed :
      (raw : String) (bytes : List ℕ) (tx : Transaction) (from : String)
      → decode_hex (trim_prefix raw "0x") ≡ some bytes
      → eth.unmarshal_binary bytes ≡ some tx
      → tx.from ≡ some from
      → decode_tx eth raw ≡ some (tx_detail eth tx from)
  unfolding decode_tx tx_detail
  decode_tx-signed raw bytes tx from read decoded known =
      rw (trim_prefix-hex (trim_prefix raw "0x") bytes read, read, decoded, known, decode_tx) refl

  decode_tx-unsigned :
      (raw : String) (bytes : List ℕ) (tx : Transaction)
      → decode_hex (trim_prefix raw "0x") ≡ some bytes
      → eth.unmarshal_binary bytes ≡ some tx
      → tx.from ≡ none
      → decode_tx eth raw ≡ none
  unfolding decode_tx
  decode_tx-unsigned raw bytes tx read decoded missing =
      rw (trim_prefix-hex (trim_prefix raw "0x") bytes read, read, decoded, missing, decode_tx) refl

  decode_tx-hash :
      (raw : String) (bytes : List ℕ) (tx : Transaction) (d : TxDetail)
      → decode_hex (trim_prefix raw "0x") ≡ some bytes
      → eth.unmarshal_binary bytes ≡ some tx
      → decode_tx eth raw ≡ some d
      → tx.hash ≡ d.hash
  unfolding tx_detail
  decode_tx-hash raw bytes tx d read decoded detail = elim (Option-cases tx.from) [
    | inl missing ↦
        absurd
          (none-ne-some d (sym (decode_tx-unsigned raw bytes tx read decoded missing) ∙ detail))
    | inr (from, known) ↦
        ap (λ t. t.hash)
          (some-injective (tx_detail eth tx from) d
            (sym (decode_tx-signed raw bytes tx from read decoded known) ∙ detail))
  ]

  compute_last_tx_hash-read :
      (raws : List String) (raw : String) (bytes : List ℕ) (tx : Transaction)
      → decode_hex (trim_prefix raw "0x") ≡ some bytes
      → eth.unmarshal_binary bytes ≡ some tx
      → compute_last_tx_hash eth (raws ++ List.◌∷◌ raw List.[]) ≡ tx.hash
  unfolding compute_last_tx_hash
  compute_last_tx_hash-read raws raw bytes tx read decoded =
      rw (last_tx-append raws raw, read, decoded, compute_last_tx_hash) refl

  compute_last_tx_hash-unread :
      (raws : List String) (raw : String)
      → decode_hex (trim_prefix raw "0x") ≡ none
      → compute_last_tx_hash eth (raws ++ List.◌∷◌ raw List.[]) ≡ ""
  unfolding compute_last_tx_hash
  compute_last_tx_hash-unread raws raw read =
      rw (last_tx-append raws raw, read, compute_last_tx_hash) refl

  decode_tx-undecoded :
      (raw : String) (bytes : List ℕ)
      → decode_hex (trim_prefix raw "0x") ≡ some bytes
      → eth.unmarshal_binary bytes ≡ none
      → decode_tx eth raw ≡ none
  unfolding decode_tx
  decode_tx-undecoded raw bytes read decoded =
      rw (trim_prefix-hex (trim_prefix raw "0x") bytes read, read, decoded, decode_tx) refl

  decode_tx_details-append :
      (raws : List String) (raw : String) (d : TxDetail)
      → decode_tx eth raw ≡ some d
      → decode_tx_details eth (raws ++ List.◌∷◌ raw List.[])
        ≡ decode_tx_details eth raws ++ List.◌∷◌ d List.[]
  unfolding decode_tx_details
  decode_tx_details-append List.[] raw d h = rw (h, decode_tx_details) refl
  decode_tx_details-append (List.◌∷◌ r raws) raw d h = elim (Option-cases (decode_tx eth r)) [
    | inl bad ↦ rw (bad, decode_tx_details) (decode_tx_details-append raws raw d h)
    | inr (x, good) ↦
        rw (good, decode_tx_details) (ap (List.◌∷◌ x) (decode_tx_details-append raws raw d h))
  ]

  -- What a broadcast records of a bundle agrees with itself: if the last raw transaction is one that
  -- decodeTxDetails shows, its details are the last of the list, and computeLastTxHash returns the hash
  -- that they show if the text without its 0x is hexadecimal. It returns the empty text just if it is not,
  -- since it does not take away a 0X, which decodeTxDetails does.
  pub last_tx_hash_in_details :
      (raws : List String) (raw : String) (d : TxDetail)
      → decode_tx eth raw ≡ some d
      → (decode_tx_details eth (raws ++ List.◌∷◌ raw List.[])
          ≡ decode_tx_details eth raws ++ List.◌∷◌ d List.[])
        × (((compute_last_tx_hash eth (raws ++ List.◌∷◌ raw List.[]) ≡ d.hash)
              × (is_some (decode_hex (trim_prefix raw "0x")) ≡ true))
            ⊎ ((compute_last_tx_hash eth (raws ++ List.◌∷◌ raw List.[]) ≡ "")
                × (is_some (decode_hex (trim_prefix raw "0x")) ≡ false)))
  last_tx_hash_in_details raws raw d detail = (
    decode_tx_details-append raws raw d detail,
    elim (Option-cases (decode_hex (trim_prefix raw "0x"))) [
      | inl bad ↦ inr (compute_last_tx_hash-unread raws raw bad, ap is_some bad)
      | inr (bytes, read) ↦ elim (Option-cases (eth.unmarshal_binary bytes)) [
        | inl bad ↦ absurd (none-ne-some d (sym (decode_tx-undecoded raw bytes read bad) ∙ detail))
        | inr (tx, decoded) ↦ inl (
          compute_last_tx_hash-read raws raw bytes tx read decoded
              ∙ decode_tx-hash raw bytes tx d read decoded detail,
          ap is_some read,
        )
      ]
    ],
  )

-- ===== src/Manager/Refund/Priority.antt =====
-- A bundle's own refund settings go before those of the configuration.
use bundle_broadcaster.Bundle.{IncomingBundle}
use bundle_broadcaster.Config.{RefundConfig}
use bundle_broadcaster.Common.{
  Bool, List, Option, String, ◌||◌, ◌≡◌, if◌then◌else◌, ℤ, not, ◌&&◌, ◌==◌, arith, is_some,
  nonempty, eq_iff, none, some, [], true, false, inl, inr, ◌∷◌, Bool-cases, sym, refl,
}
use bundle_broadcaster.Manager.Refund.{is_none, is_unset, fill_refund, apply_refund_defaults}

-- The first setting that is given.
abbrev pub first_percent : Option ℤ → Option ℤ → Option ℤ
first_percent none q = q
first_percent (some n) q = some n

abbrev pub first_text : String → String → String
first_text s t = if s == "" then t else s

abbrev pub first_list : List String → List String → List String
first_list [] ys = ys
first_list (x ∷ xs) ys = x ∷ xs

-- The bundle with each refund setting taken from it, or else from the configuration.
abbrev pub merged : RefundConfig → IncomingBundle → IncomingBundle
merged r b = record b {
  refund_percent = first_percent b.refund_percent r.percent;
  refund_recipient = first_text b.refund_recipient r.recipient;
  refund_tx_hashes = first_list b.refund_tx_hashes r.tx_hashes;
  delayed_refund = b.delayed_refund || r.delayed_refund;
  refund_identity = first_text b.refund_identity r.refund_identity;
}

percent_lem : (p q : Option ℤ) → (if is_none p && is_some q then q else p) ≡ first_percent p q
percent_lem none none = refl
percent_lem none (some n) = refl
percent_lem (some m) q = refl

list_lem :
    (xs ys : List String) → (if not (nonempty xs) && nonempty ys then ys else xs) ≡ first_list xs ys
list_lem [] [] = refl
list_lem [] (y ∷ ys) = refl
list_lem (x ∷ xs) ys = refl

text_lem : (s t : String) → (if (s == "") && not (t == "") then t else s) ≡ first_text s t
text_lem s t = ground (arith, eq_iff s "", eq_iff t "")

flag_lem : (c d : Bool) → (if not c && d then d else c) ≡ (c || d)
flag_lem true d = refl
flag_lem false true = refl
flag_lem false false = refl

fill_refund-merged : (r : RefundConfig) (b : IncomingBundle) → fill_refund r b ≡ merged r b
unfolding fill_refund
fill_refund-merged r b = λ i. record b {
  refund_percent = percent_lem b.refund_percent r.percent i;
  refund_recipient = text_lem b.refund_recipient r.recipient i;
  refund_tx_hashes = list_lem b.refund_tx_hashes r.tx_hashes i;
  delayed_refund = flag_lem b.delayed_refund r.delayed_refund i;
  refund_identity = text_lem b.refund_identity r.refund_identity i;
}

first_percent-none : (p q : Option ℤ) → is_none q ≡ true → first_percent p q ≡ p
first_percent-none none none h = refl
first_percent-none none (some n) h = cc
first_percent-none (some m) q h = refl

first_list-nil : (xs ys : List String) → nonempty ys ≡ false → first_list xs ys ≡ xs
first_list-nil [] [] h = refl
first_list-nil [] (y ∷ ys) h = cc
first_list-nil (x ∷ xs) ys h = refl

first_text-empty : (s t : String) → (t == "") ≡ true → first_text s t ≡ s
first_text-empty s t h = ground (arith, eq_iff s "", eq_iff t "")

or_false : (c d : Bool) → d ≡ false → (c || d) ≡ c
or_false true d h = refl
or_false false d h = h

unset_parts :
    (r : RefundConfig)
    → is_unset r ≡ true
    → (is_none r.percent ≡ true)
      × ((r.recipient == "") ≡ true)
      × (nonempty r.tx_hashes ≡ false)
      × (r.delayed_refund ≡ false)
      × ((r.refund_identity == "") ≡ true)
unfolding is_unset
unset_parts r h = ground arith

merged-unset : (r : RefundConfig) (b : IncomingBundle) → is_unset r ≡ true → b ≡ merged r b
merged-unset r b h =
    let (percent, recipient, hashes, delayed, identity) = unset_parts r h in
    λ i. record b {
      refund_percent = sym (first_percent-none b.refund_percent r.percent percent) i;
      refund_recipient = sym (first_text-empty b.refund_recipient r.recipient recipient) i;
      refund_tx_hashes = sym (first_list-nil b.refund_tx_hashes r.tx_hashes hashes) i;
      delayed_refund = sym (or_false b.delayed_refund r.delayed_refund delayed) i;
      refund_identity = sym (first_text-empty b.refund_identity r.refund_identity identity) i;
    }

-- Each refund setting of the result is the bundle's, where it gives one, and else the
-- configuration's; the delayed refund is on if either asks for it; nothing else changes. The fast
-- path returns the same bundle as the slow one.
pub apply_refund_defaults-merged :
    (r : RefundConfig) (b : IncomingBundle) → apply_refund_defaults r b ≡ merged r b
unfolding apply_refund_defaults
apply_refund_defaults-merged r b = elim (Bool-cases (is_unset r)) [
  | inl unset ↦ rw (unset, apply_refund_defaults) (merged-unset r b unset)
  | inr set ↦ rw (set, apply_refund_defaults) (fill_refund-merged r b)
]

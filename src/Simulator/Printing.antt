-- ===== src/Simulator/Printing.antt =====
-- The amounts of a simulation result, from hexadecimal wei.
use Prim.Native.String.{[], ◌∷◌}
use Prim.Native.String
use Prim.Native.Char.{Char}
use bundle_broadcaster.Common.{
  String, ℕ, ◌<◌, ◌≡◌, ◌∙◌, ◌==◌, sym, ap, subst, refl, eq_iff, Option, none, some, pos, false,
  Bool-cases, inl, inr, hex, parse_hex, parse_hex-hex, trim_prefix, trim_prefix-append, ◌≢◌, arith,
}
use bundle_broadcaster.Transaction.{Ethereum}
use bundle_broadcaster.Simulator.Amounts.{set_string, format_amount, wei_hex_to_eth}

abbrev first : String → Option Char
first [] = none
first (c ∷ s) = some c

minus_unread : (s : String) → parse_hex ("-" ∷ s) ≡ none
unfolding parse_hex
minus_unread s = refl

plus_unread : (s : String) → parse_hex ("+" ∷ s) ≡ none
unfolding parse_hex
plus_unread s = refl

empty_unread : parse_hex "" ≡ none
unfolding parse_hex
empty_unread = refl

-- Text that reads as a number has no sign.
unsigned :
    (sign c : Char) (s : String) (n : ℕ)
    → ((r : String) → parse_hex (sign ∷ r) ≡ none)
    → parse_hex (c ∷ s) ≡ some n
    → ((c ∷ "") == (sign ∷ "")) ≡ false
unsigned sign c s n unread read = elim (Bool-cases ((c ∷ "") == (sign ∷ ""))) [
  | inr other ↦ other
  | inl same ↦
      let head : some c ≡ some sign = ap first ((eq_iff (c ∷ "") (sign ∷ "")).0 same) in
      let same_char : c ≡ sign = cc in
      let gone : parse_hex (c ∷ s) ≡ none =
        subst (λ d. parse_hex (d ∷ s) ≡ none) (sym same_char) (unread s) in
      absurd (cc (read, gone))
]

set_string-parse_hex : (t : String) (n : ℕ) → parse_hex t ≡ some n → set_string t ≡ some (pos n)
unfolding set_string
set_string-parse_hex [] n read = absurd (cc (read, empty_unread))
set_string-parse_hex (c ∷ s) n read =
    rw (unsigned "-" c s n minus_unread read, unsigned "+" c s n plus_unread read, read) refl

-- The number that 0x and some digits stand for.
abbrev number_in : String → Option ℕ
number_in s = parse_hex (trim_prefix s "0x")

number_in-hex : (n : ℕ) → n < 18446744073709551616 → number_in (String.◌++◌ "0x" (hex n)) ≡ some n
number_in-hex n h = ap parse_hex (trim_prefix-append "0x" (hex n)) ∙ parse_hex-hex n h

differs :
    (n : ℕ) (s : String) (o : Option ℕ)
    → n < 18446744073709551616
    → number_in s ≡ o
    → o ≢ some n
    → (String.◌++◌ "0x" (hex n) == s) ≡ false
differs n s o h read other = elim (Bool-cases (String.◌++◌ "0x" (hex n) == s)) [
  | inr apart ↦ apart
  | inl equal ↦
      let same = (eq_iff (String.◌++◌ "0x" (hex n)) s).0 equal in
      absurd (other (sym read ∙ ap number_in (sym same) ∙ number_in-hex n h))
]

read_special : (number_in "" ≡ none) × (number_in "0x0" ≡ some 0) × (number_in "0x" ≡ none)
unfolding trim_prefix parse_hex
read_special = (refl, refl, refl)

-- An amount of wei that is written as 0x and hexadecimal digits is shown as the same amount in ETH, for
-- every positive one below 2 ^ 64.
pub wei_hex_to_eth-hex :
    (eth : Ethereum) (n : ℕ)
    → 0 < n
    → n < 18446744073709551616
    → wei_hex_to_eth eth (String.◌++◌ "0x" (hex n)) ≡ eth.format_eth n
unfolding wei_hex_to_eth format_amount
wei_hex_to_eth-hex eth n positive h =
    let nothing : ◌≢◌ {A = Option ℕ} none (some n) = λ e. cc e in
    let not_zero : ◌≢◌ {A = Option ℕ} (some 0) (some n) =
      λ e. let same : 0 ≡ n = cc e in omega (arith, same) in
    rw
      (
        differs n "" none h read_special.0 nothing,
        differs n "0x0" (some 0) h read_special.1 not_zero,
        differs n "0x" none h read_special.2 nothing,
      )
      (rw (set_string-parse_hex (trim_prefix (String.◌++◌ "0x" (hex n)) "0x") n (number_in-hex n h))
        refl)

-- ===== src/Common/Hex.antt =====
-- Hexadecimal numbers as the standard library writes and reads them: `%x`, and base 16 of big.Int.
use Prim.Native.Char.{Char, code, len_utf8}
use Prim.Native.String.{String, [], ◌∷◌}
use mathlib.Core.Bool.{◌&&◌}
use mathlib.Core.Option.{Option, none, some}
use mathlib.Core.Path.{◌≡◌, refl, ◌∙◌, ap, subst, sym}
use mathlib.Core.Logic.{inl, inr}
use native.Mathlib.Nat.{pow-suc}
use Prim.Native.Nat.{ℕ, zero, suc, ◌+◌, ◌-◌, ◌*◌, ◌/◌, ◌%◌, ◌^◌, ◌<◌}
use native.Mathlib.Omega.{arith}
use native.Mathlib.Decide.{ℕ_discrete}
use bundle_broadcaster.Common.Tests.{leb, Bool-cases, eqb, if◌then◌else◌}

unfoldable pub hex_digit : ℕ → Char
hex_digit d =
    if eqb d 0
    then "0"
    else if eqb d 1
    then "1"
    else if eqb d 2
    then "2"
    else if eqb d 3
    then "3"
    else if eqb d 4
    then "4"
    else if eqb d 5
    then "5"
    else if eqb d 6
    then "6"
    else if eqb d 7
    then "7"
    else if eqb d 8
    then "8"
    else if eqb d 9
    then "9"
    else if eqb d 10
    then "a"
    else if eqb d 11
    then "b"
    else if eqb d 12
    then "c"
    else if eqb d 13
    then "d"
    else if eqb d 14
    then "e"
    else "f"

-- The digits of a number before the text `rest`, the last digit first. Sixteen rounds write every
-- uint64.
digits_before : ℕ → ℕ → String → String
unfolding hex_digit
digits_before zero n rest = rest
digits_before (suc rounds) n rest =
    let longer = digits_before rounds (n / 16) (hex_digit (n % 16) ∷ rest) in
    if eqb (n / 16) 0 then hex_digit (n % 16) ∷ rest else longer

-- `fmt.Sprintf("%x", n)` for a uint64.
unfoldable pub hex : ℕ → String
unfolding digits_before
hex n = digits_before 16 n ""

-- Digits of both cases count.
unfoldable pub hex_value : Char → Option ℕ
hex_value c =
    if leb b'0' (code c) && leb (code c) b'9'
    then some (code c - b'0')
    else if leb b'a' (code c) && leb (code c) b'f'
    then some (code c - 87)
    else if leb b'A' (code c) && leb (code c) b'F'
    then some (code c - 55)
    else none

parse_from : ℕ → String → Option ℕ
unfolding hex_value
parse_from v [] = some v
parse_from v (c ∷ s) = elim (hex_value c) [ none ↦ none | some d ↦ parse_from (v * 16 + d) s ]

-- The digits of `n.SetString(s, 16)`, which wants one digit at least.
parse_digits : String → Option ℕ
unfolding parse_from
parse_digits [] = none
parse_digits (c ∷ s) = parse_from 0 (c ∷ s)

unfoldable pub parse_hex : String → Option ℕ
unfolding parse_digits
parse_hex s = parse_digits s

-- A property of the numbers below a bound, from the largest down.
abbrev Each : (ℕ → Type 0) → ℕ → Type 0
Each P zero = Unit
Each P (suc n) = P n × Each P n

each_at : (P : ℕ → Type 0) (n d : ℕ) → Each P n → d < n → P d
each_at P zero d proofs h = absurd (omega arith)
each_at P (suc n) d (top, others) h = elim (ℕ_discrete d n) [
  | yes same ↦ subst P (sym same) top
  | no less ↦ each_at P n d others (omega arith)
]

-- The digit is read as the number that it was written for.
abbrev IsRead : ℕ → Type 0
IsRead d = hex_value (hex_digit d) ≡ some d

digits-Each : Each IsRead 16
unfolding hex_value hex_digit
digits-Each = (
  refl,
  (
    refl,
    (
      refl,
      (
        refl,
        (
          refl,
          (
            refl,
            (refl, (refl, (refl, (refl, (refl, (refl, (refl, (refl, (refl, (refl, tt)))))))))),
          ),
        ),
      ),
    ),
  ),
)

pub hex_value-hex_digit : (d : ℕ) → d < 16 → hex_value (hex_digit d) ≡ some d
hex_value-hex_digit d h = each_at IsRead 16 d digits-Each h

parse_from-hex_digit :
    (v d : ℕ) (rest : String)
    → d < 16
    → parse_from v (hex_digit d ∷ rest) ≡ parse_from (v * 16 + d) rest
unfolding parse_from
parse_from-hex_digit v d rest h = rw (hex_value-hex_digit d h, parse_from)

pow_sixteen : (k : ℕ) → 16 ^ suc k ≡ 16 ^ k * 16
pow_sixteen k = pow-suc 16 k

parse_from-digits_before :
    (rounds n : ℕ) (rest : String)
    → n < 16 ^ rounds
    → parse_from 0 (digits_before rounds n rest) ≡ parse_from n rest
unfolding digits_before
parse_from-digits_before zero n rest h = ap (λ k. parse_from k rest) (omega arith)
parse_from-digits_before (suc rounds) n rest h = elim (Bool-cases (eqb (n / 16) 0)) [
  | inl last ↦ rw last (
      parse_from-hex_digit 0 (n % 16) rest (omega arith)
      ∙ ap (λ k. parse_from k rest) (ground arith))
  | inr more ↦ rw more (
      parse_from-digits_before rounds (n / 16) (hex_digit (n % 16) ∷ rest)
        (omega (arith, pow_sixteen rounds))
      ∙ parse_from-hex_digit (n / 16) (n % 16) rest (omega arith)
      ∙ ap (λ k. parse_from k rest) (omega arith))
]

digits_before-cons :
    (rounds n : ℕ) (rest : String)
    → (c : Char) × (s : String) × (digits_before (suc rounds) n rest ≡ c ∷ s)
unfolding digits_before
digits_before-cons zero n rest = (hex_digit (n % 16), rest, ground arith)
digits_before-cons (suc rounds) n rest = elim (Bool-cases (eqb (n / 16) 0)) [
  | inl last ↦ (hex_digit (n % 16), rest, rw last)
  | inr more ↦ rw more (digits_before-cons rounds (n / 16) (hex_digit (n % 16) ∷ rest))
]

-- A uint64 is read back from its hexadecimal text.
pub parse_hex-hex : (n : ℕ) → n < 18446744073709551616 → parse_hex (hex n) ≡ some n
unfolding hex parse_hex
parse_hex-hex n h =
    let (c, s, e) = digits_before-cons 15 n "" in
    rw (e, parse_digits) (rw (← e) (parse_from-digits_before 16 n "" h))

hex_test : hex 24726517 ≡ "1794bf5"
unfolding hex
hex_test = refl

abbrev IsShort : ℕ → Type 0
IsShort d = len_utf8 (hex_digit d) ≡ 1

digits-Short : Each IsShort 16
unfolding hex_digit
digits-Short = (
  refl,
  (
    refl,
    (
      refl,
      (
        refl,
        (
          refl,
          (
            refl,
            (refl, (refl, (refl, (refl, (refl, (refl, (refl, (refl, (refl, (refl, tt)))))))))),
          ),
        ),
      ),
    ),
  ),
)

pub len-hex_digit : (d : ℕ) → d < 16 → len_utf8 (hex_digit d) ≡ 1
len-hex_digit d h = each_at IsShort 16 d digits-Short h

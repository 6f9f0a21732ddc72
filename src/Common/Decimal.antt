-- ===== src/Common/Decimal.antt =====
-- `%d` of the standard library, for an int64, and the String method of big.Int.
use Prim.Native.Char.{Char}
use Prim.Native.String.{String, ◌∷◌}
use Prim.Native.Nat.{ℕ, zero, suc, ◌/◌, ◌%◌}
use mathlib.Core.Bool.{Bool, false}
use mathlib.Core.Path.{◌≡◌, refl}
use bundle_broadcaster.Common.Tests.{eqb, if◌then◌else◌}
use bundle_broadcaster.Common.Int.{ℤ, pos, negsuc}

digit : ℕ → Char
digit d =
    if eqb d 0
    then "0"
    else if eqb d 1
    then "1"
    else if eqb d 2
    then "2"
    else if eqb d 3
    then "3"
    else if eqb d 4
    then "4"
    else if eqb d 5
    then "5"
    else if eqb d 6
    then "6"
    else if eqb d 7
    then "7"
    else if eqb d 8
    then "8"
    else "9"

-- Eighty rounds write every number below 2 ^ 256, an amount of wei included.
digits_before : ℕ → ℕ → String → String
unfolding digit
digits_before zero n rest = rest
digits_before (suc rounds) n rest =
    let longer = digits_before rounds (n / 10) (digit (n % 10) ∷ rest) in
    if eqb (n / 10) 0 then digit (n % 10) ∷ rest else longer

unfoldable pub decimal_ℕ : ℕ → String
unfolding digits_before
decimal_ℕ n = digits_before 80 n ""

unfoldable pub decimal : ℤ → String
unfolding decimal_ℕ
decimal (pos n) = decimal_ℕ n
decimal (negsuc n) = "-" ∷ decimal_ℕ (suc n)

-- `n == 0`
abbrev pub is_zero : ℤ → Bool
is_zero (pos n) = eqb n 0
is_zero (negsuc n) = false

decimal_test : decimal (pos 8585) ≡ "8585"
unfolding decimal
decimal_test = refl

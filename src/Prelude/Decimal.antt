-- ===== src/Prelude/Decimal.antt =====
-- The text of a number, as fmt's %d writes it.
use Prim.Native.String.{String, ◌++◌}
use Prim.Native.Nat.{ℕ, zero, suc, ◌+◌, ◌*◌, ◌/◌, ◌%◌, ◌^◌, ◌<◌}
use mathlib.Core.Path.{◌≡◌}
use mathlib.Core.Logic.{inl, inr}
use native.Mathlib.Omega.{arith}
use native.Mathlib.Nat.{pow-suc}
use jitsudo.Prelude.Tests.{◌==◌, ltb, if◌then◌else◌, Bool-cases}

-- Decimal digits, the last one outermost.
pub data Digits : Type 0 where
  one : ℕ → Digits
  more : Digits → ℕ → Digits

unfoldable pub digits : ℕ → ℕ → Digits
digits zero n = one n
digits (suc f) n = let rest = digits f (n / 10) in if ltb n 10 then one n else more rest (n % 10)

unfoldable pub digit : ℕ → String
digit d =
    if d == 0
    then "0"
    else if d == 1
    then "1"
    else if d == 2
    then "2"
    else if d == 3
    then "3"
    else if d == 4
    then "4"
    else if d == 5
    then "5"
    else if d == 6
    then "6"
    else if d == 7
    then "7"
    else if d == 8
    then "8"
    else "9"

unfoldable pub show : Digits → String
unfolding digit
show (one d) = digit d
show (more ds d) = show ds ++ digit d

-- An int64 that is not negative has at most 19 digits.
unfoldable pub decimal : ℕ → String
unfolding digits show
decimal n = show (digits 18 n)

pub value : Digits → ℕ
value (one d) = d
value (more ds d) = value ds * 10 + d

-- Every digit is below 10.
abbrev pub AreDigits : Digits → Type 0
AreDigits (one d) = d < 10
AreDigits (more ds d) = AreDigits ds × (d < 10)

pub value-digits : (f n : ℕ) → value (digits f n) ≡ n
unfolding value digits
value-digits zero n = omega arith
value-digits (suc f) n = ground (arith, value-digits f (n / 10))

pub digits-AreDigits : (f n : ℕ) → n < 10 ^ suc f → AreDigits (digits f n)
unfolding digits
digits-AreDigits zero n h = omega arith
digits-AreDigits (suc f) n h = elim (Bool-cases (ltb n 10)) [
  | inl small ↦ rw small (ground arith)
  | inr large ↦
      rw large
        (digits-AreDigits f (n / 10) (let e = pow-suc 10 (suc f) in omega (arith, e)), omega arith)
]

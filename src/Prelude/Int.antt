-- ===== src/Prelude/Int.antt =====
-- Integers over the native numbers, and Go's int64 arithmetic on them.
use Prim.Native.Nat.{ℕ, suc, ◌-◌, ◌*◌, ◌%◌, ◌^◌}
use mathlib.Core.Bool.{Bool, true}
use jitsudo.Prelude.Tests.{ltb, leb, if◌then◌else◌}

-- `negsuc n` is -(n + 1).
pub data ℤ : Type 0 where
  pos : ℕ → ℤ
  negsuc : ℕ → ℤ

-- x <= 0
abbrev pub is_nonpos : ℤ → Bool
is_nonpos (pos n) = leb n 0
is_nonpos (negsuc n) = true

-- The int64 whose 64-bit pattern is `n % 2 ^ 64`.
abbrev pub of_bits : ℕ → ℤ
of_bits n = let m = n % 2 ^ 64 in if ltb m (2 ^ 63) then pos m else negsuc (2 ^ 64 - m - 1)

-- The product of an int64 by a constant, as Go computes it.
abbrev pub mul_int64 : ℤ → ℕ → ℤ
mul_int64 (pos n) k = of_bits (n * k)
mul_int64 (negsuc n) k = of_bits (2 ^ 64 - (suc n * k) % 2 ^ 64)

-- ===== src/Prelude/Int.antt =====
-- Signed integers over the native numbers, and the two's-complement reading of 64 bits.
use Prim.Native.Nat.{ℕ, suc, ◌+◌, ◌-◌, ◌*◌, ◌%◌, ◌^◌}
use mathlib.Core.Bool.{Bool}
use save_knot.Prelude.Tests.{ltb, leb, if◌then◌else◌}

-- `negsuc n` is -(n + 1).
pub data ℤ : Type 0 where
  pos : ℕ → ℤ
  negsuc : ℕ → ℤ

abbrev pub pos_part : ℤ → ℕ
pos_part (pos n) = n
pos_part (negsuc n) = 0

abbrev pub neg_part : ℤ → ℕ
neg_part (pos n) = 0
neg_part (negsuc n) = suc n

abbrev pub ltb_ℤ : ℤ → ℤ → Bool
ltb_ℤ a b = ltb (pos_part a + neg_part b) (pos_part b + neg_part a)

-- A product with a natural number.
abbrev pub scale : ℤ → ℕ → ℤ
scale (pos n) k = pos (n * k)
scale (negsuc n) k = if leb k 0 then pos 0 else negsuc (suc n * k - 1)

-- The residue modulo 2 ^ 64, as the bit pattern of an int64.
abbrev pub pattern64 : ℤ → ℕ
pattern64 (pos n) = n % 2 ^ 64
pattern64 (negsuc n) = 2 ^ 64 - 1 - n % 2 ^ 64

-- The int64 with a bit pattern.
abbrev pub of_pattern64 : ℕ → ℤ
of_pattern64 n = if ltb n (2 ^ 63) then pos n else negsuc (2 ^ 64 - 1 - n)

-- What an overflowing int64 operation leaves of its exact result.
abbrev pub wrap64 : ℤ → ℤ
wrap64 z = of_pattern64 (pattern64 z)

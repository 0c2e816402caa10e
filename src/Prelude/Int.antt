-- ===== src/Prelude/Int.antt =====
-- Signed numbers: `negsuc n` is -(n + 1).
use Prim.Native.Nat.{ℕ, suc, ◌+◌, ◌-◌, ◌%◌, ◌^◌}
use mathlib.Core.Bool.{Bool}
use skewer.Prelude.Tests.{leb, ltb, if◌then◌else◌}

pub data ℤ : Type 0 where
  pos : ℕ → ℤ
  negsuc : ℕ → ℤ

abbrev pub pos_part : ℤ → ℕ
pos_part (pos n) = n
pos_part (negsuc n) = 0

abbrev pub neg_part : ℤ → ℕ
neg_part (pos n) = 0
neg_part (negsuc n) = suc n

-- a + d ≤ b
abbrev pub at_least : ℕ → ℤ → ℤ → Bool
at_least d a b = leb (pos_part a + neg_part b + d) (pos_part b + neg_part a)

-- The integer that 32 bits stand for.
abbrev of_bits : ℕ → ℤ
of_bits bits = if ltb bits (2 ^ 31) then pos bits else negsuc (2 ^ 32 - 1 - bits)

-- `int32(n)`
unfoldable pub to_int32 : ℤ → ℤ
to_int32 (pos n) = of_bits (n % 2 ^ 32)
to_int32 (negsuc n) = of_bits (2 ^ 32 - 1 - n % 2 ^ 32)

-- ===== src/Prelude/Int.antt =====
-- Go's `int` and `int64` where a value may be negative; no value is near the end of its range.
use Prim.Native.Nat.{ℕ, suc, ◌+◌}
use mathlib.Core.Bool.{Bool}
use snow_panel.Prelude.Tests.{ltb, leb}

-- `negsuc n` is -(n + 1).
pub data ℤ : Type 0 where
  pos : ℕ → ℤ
  negsuc : ℕ → ℤ

abbrev pub pos_part : ℤ → ℕ
pos_part (pos n) = n
pos_part (negsuc n) = 0

abbrev pub neg_part : ℤ → ℕ
neg_part (pos n) = 0
neg_part (negsuc n) = suc n

-- `a < b` and `a <= b` as tests.
abbrev pub ltbℤ : ℤ → ℤ → Bool
ltbℤ a b = ltb (pos_part a + neg_part b) (pos_part b + neg_part a)

abbrev pub lebℤ : ℤ → ℤ → Bool
lebℤ a b = leb (pos_part a + neg_part b) (pos_part b + neg_part a)

-- `v <= 0`.
abbrev pub is_nonpos : ℤ → Bool
is_nonpos v = leb (pos_part v) 0

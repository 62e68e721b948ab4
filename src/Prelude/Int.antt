-- ===== src/Prelude/Int.antt =====
-- Signed integers over the native numbers: the arguments that the source clamps with `max(0, …)`.
use Prim.Native.Nat.{ℕ, suc, ◌+◌}
use mathlib.Core.Bool.{Bool}
use lingxi_learn.Prelude.Tests.{ltb}

-- `negsuc n` is -(n + 1).
pub data ℤ : Type 0 where
  pos : ℕ → ℤ
  negsuc : ℕ → ℤ

-- `max(0, a)`
abbrev pub pos_part : ℤ → ℕ
pos_part (pos n) = n
pos_part (negsuc n) = 0

abbrev pub neg_part : ℤ → ℕ
neg_part (pos n) = 0
neg_part (negsuc n) = suc n

-- n + a > limit
abbrev pub exceeds : ℕ → ℤ → ℤ → Bool
exceeds n a limit = ltb (pos_part limit + neg_part a) (n + pos_part a + neg_part limit)

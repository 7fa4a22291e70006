-- ===== src/Base/Integers.antt =====
-- The integers that a difference of two counts can be, as JavaScript computes it.
use prompt_maker_studio.Base.Tests.{leb, if◌then◌else◌}
use Prim.Native.Nat.{ℕ, ◌+◌, ◌-◌}

-- `negsuc n` is -(n + 1)
pub data ℤ : Type 0 where
  pos : ℕ → ℤ
  negsuc : ℕ → ℤ

-- A count less from an integer.
infixl 65 ◌-ℤ◌
unfoldable pub ◌-ℤ◌ : ℤ → ℕ → ℤ
pos have -ℤ n = if leb n have then pos (have - n) else negsuc (n - have - 1)
negsuc short -ℤ n = negsuc (short + n)

-- ===== src/Prelude/Integers.antt =====
-- Python's integers, where a difference of counts may fall below 0.
use Prim.Native.Nat.{ℕ, suc, ◌-◌}
use congress.Prelude.Tests.{ltb, if◌then◌else◌}

-- `negsuc n` is -(n + 1)
pub data ℤ : Type 0 where
  pos negsuc : ℕ → ℤ

abbrev pub difference : ℕ → ℕ → ℤ
difference m n = if ltb m n then negsuc (n - m - 1) else pos (m - n)

abbrev pub magnitude : ℤ → ℕ
magnitude (pos n) = n
magnitude (negsuc n) = suc n

-- ===== src/Prelude/Integers.antt =====
-- Differences of natural numbers, for counts that a call reports as `i64`.
use Prim.Native.Nat.{ℕ, zero, suc}

pub data ℤ : Type 0 where
  pos : ℕ → ℤ
  negsuc : ℕ → ℤ

infixl 20 ◌⊖◌
unfoldable pub ◌⊖◌ : ℕ → ℕ → ℤ
m ⊖ zero = pos m
zero ⊖ suc n = negsuc n
suc m ⊖ suc n = m ⊖ n

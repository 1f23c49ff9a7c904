-- ===== src/Prelude/Int.antt =====
-- Python's integers: `negsuc n` is -(n + 1).
use Prim.Native.Nat.{ℕ}
use mathlib.Core.Bool.{Bool, true, false}
use one_company.Prelude.Tests.{ltb}

pub data ℤ : Type 0 where
  pos : ℕ → ℤ
  negsuc : ℕ → ℤ

-- m < n
abbrev pub less : ℤ → ℤ → Bool
less (pos m) (pos n) = ltb m n
less (negsuc m) (negsuc n) = ltb n m
less (negsuc m) (pos n) = true
less (pos m) (negsuc n) = false

-- ===== src/Base/Int.antt =====
-- The integers that a JSON number may hold.
use Prim.Native.Nat.{ℕ}
use mathlib.Core.Bool.{Bool, true}
use approvio.Base.Tests.{ltb}

-- `negsuc n` is -(n + 1)
pub data ℤ : Type 0 where
  pos : ℕ → ℤ
  negsuc : ℕ → ℤ

-- `z < n`
abbrev pub int_ltb : ℤ → ℕ → Bool
int_ltb (pos m) n = ltb m n
int_ltb (negsuc _) n = true

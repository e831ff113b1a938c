-- ===== src/Base/Ints.antt =====
-- Signed numbers over the native natural numbers.
use Prim.Native.Nat.{ℕ, zero, suc}
use mathlib.Core.Path.{◌≡◌, ap}
use mathlib.Core.Bool.{Bool, true, false}
use c_specx.Base.Tests.{◌==◌, ==_iff}

pub data ℤ : Type 0 where
  pos : ℕ → ℤ
  negsuc : ℕ → ℤ

-- `- n`
abbrev pub neg : ℕ → ℤ
neg zero = pos zero
neg (suc n) = negsuc n

abbrev pub same_int : ℤ → ℤ → Bool
same_int (pos a) (pos b) = a == b
same_int (negsuc a) (negsuc b) = a == b
same_int _ _ = false

pub same_int→eq : (a b : ℤ) → same_int a b ≡ true → a ≡ b
same_int→eq (pos a) (pos b) h = ap pos ((==_iff a b).0 h)
same_int→eq (negsuc a) (negsuc b) h = ap negsuc ((==_iff a b).0 h)
same_int→eq (pos a) (negsuc b) h = cc
same_int→eq (negsuc a) (pos b) h = cc

-- ===== src/Common/Int.antt =====
-- Python's `int`, over the native numbers.
use Prim.Native.Nat.{ℕ}
use mathlib.Core.Path.{◌≡◌, refl}
use mathlib.Core.Bool.{Bool, true, false}
use native.Mathlib.Omega.{arith}
use hexdns.Common.Tests.{leb, ◌==◌}

-- `negsuc n` is -(n + 1).
pub data ℤ : Type 0 where
  pos : ℕ → ℤ
  negsuc : ℕ → ℤ

unfoldable pub lebℤ : ℤ → ℤ → Bool
lebℤ (pos a) (pos b) = leb a b
lebℤ (pos a) (negsuc b) = false
lebℤ (negsuc a) (pos b) = true
lebℤ (negsuc a) (negsuc b) = leb b a

unfoldable pub eqℤ : ℤ → ℤ → Bool
eqℤ (pos a) (pos b) = a == b
eqℤ (negsuc a) (negsuc b) = a == b
eqℤ _ _ = false

pub lebℤ_total : (a b : ℤ) → lebℤ a b ≡ false → lebℤ b a ≡ true
unfolding lebℤ
lebℤ_total (pos a) (pos b) h = ground arith
lebℤ_total (pos a) (negsuc b) h = refl
lebℤ_total (negsuc a) (pos b) h = cc
lebℤ_total (negsuc a) (negsuc b) h = ground arith

pub lebℤ_trans : (a b c : ℤ) → lebℤ a b ≡ true → lebℤ b c ≡ true → lebℤ a c ≡ true
unfolding lebℤ
lebℤ_trans (pos a) (pos b) (pos c) h k = ground arith
lebℤ_trans (negsuc a) (negsuc b) (negsuc c) h k = ground arith
lebℤ_trans _ _ _ h k = ground arith

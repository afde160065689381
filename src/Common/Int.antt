-- ===== src/Common/Int.antt =====
-- Go's signed integers as mathematical ones, with the comparisons that the code makes.
use Prim.Native.Nat.{ℕ}
use mathlib.Core.Bool.{Bool, true, false}
use etcd_infra.Common.Tests.{ltb, ◌==◌}

-- `negsuc n` is -(n + 1).
pub data ℤ : Type 0 where
  pos : ℕ → ℤ
  negsuc : ℕ → ℤ

abbrev pub is_negative : ℤ → Bool
is_negative (pos n) = false
is_negative (negsuc n) = true

-- `n <= 0`
abbrev pub is_non_positive : ℤ → Bool
is_non_positive (pos n) = n == 0
is_non_positive (negsuc n) = true

abbrev pub is_zero : ℤ → Bool
is_zero (pos n) = n == 0
is_zero (negsuc n) = false

-- `a < b`
abbrev pub ltb_ℤ : ℤ → ℤ → Bool
ltb_ℤ (pos a) (pos b) = ltb a b
ltb_ℤ (pos a) (negsuc b) = false
ltb_ℤ (negsuc a) (pos b) = true
ltb_ℤ (negsuc a) (negsuc b) = ltb b a

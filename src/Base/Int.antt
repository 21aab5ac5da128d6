-- ===== src/Base/Int.antt =====
-- Signed return values over the native numbers, and the conversions of C into and out of int32_t.
use Prim.Native.Nat.{ℕ, zero, suc, ◌-◌, ◌%◌, ◌^◌, ◌<◌}
use mathlib.Core.Path.{◌≡◌}
use native.Mathlib.Omega.{arith}
use mathlib.Core.Bool.{Bool, true, false}
use rtss_mailbox_umd.Base.Tests.{ltb, if◌then◌else◌}

-- `negsuc n` is -(n + 1).
pub data ℤ : Type 0 where
  pos : ℕ → ℤ
  negsuc : ℕ → ℤ

abbrev pub pos_part : ℤ → ℕ
pos_part (pos n) = n
pos_part (negsuc n) = 0

-- -n, for the error codes
abbrev pub neg : ℕ → ℤ
neg zero = pos 0
neg (suc n) = negsuc n

-- (int32_t) of a uint32_t
abbrev pub int32 : ℕ → ℤ
int32 n = if ltb (n % 2 ^ 32) (2 ^ 31) then pos (n % 2 ^ 32) else negsuc (2 ^ 32 - 1 - n % 2 ^ 32)

-- (uint32_t) of an int32_t
abbrev pub uint32 : ℤ → ℕ
uint32 (pos n) = n % 2 ^ 32
uint32 (negsuc n) = (2 ^ 32 - 1) - n % 2 ^ 32

-- z < 0
abbrev pub is_neg : ℤ → Bool
is_neg (pos n) = false
is_neg (negsuc n) = true

-- z == 0
abbrev pub is_zero : ℤ → Bool
is_zero (pos zero) = true
is_zero (pos (suc n)) = false
is_zero (negsuc n) = false

pub int32_small : (n : ℕ) → n < 2 ^ 31 → int32 n ≡ pos n
int32_small n h = ground arith

pub uint32-int32 : (n : ℕ) → n < 2 ^ 31 → uint32 (int32 n) ≡ n
uint32-int32 n h = ground arith

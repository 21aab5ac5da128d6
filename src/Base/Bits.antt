-- ===== src/Base/Bits.antt =====
-- Or and exclusive or of two numbers of `k` binary digits have no more digits.
use Prim.Native.Nat.{
  ℕ, zero, suc, ◌/◌, ◌%◌, ◌^◌, ◌<◌, max, bit_or, bit_xor, digits, differ, bit_or-bitwise,
  bit_xor-bitwise,
}
use native.Mathlib.Omega.{arith}

digits_bounded :
    (f : ℕ → ℕ → ℕ)
    → ((x y : ℕ) → x < 2 → y < 2 → f x y < 2)
    → (n a b k : ℕ) → a < 2 ^ k
    → b < 2 ^ k
    → digits (λ b. b) f n a b < 2 ^ k
digits_bounded f bit zero a b k ha hb = hb
digits_bounded f bit (suc n) zero b k ha hb = hb
digits_bounded f bit (suc n) (suc a) b zero ha hb = absurd (omega arith)
digits_bounded f bit (suc n) (suc a) b (suc k) ha hb = omega (
  arith,
  digits_bounded f bit n (suc a / 2) (b / 2) k (omega arith) (omega arith),
  bit (suc a % 2) (b % 2) (omega arith) (omega arith),
)

differ_bit : (x y : ℕ) → x < 2 → y < 2 → differ x y < 2
differ_bit zero y hx hy = hy
differ_bit (suc x) zero hx hy = hx
differ_bit (suc x) (suc y) hx hy = differ_bit x y (omega arith) (omega arith)

pub bit_or_bounded : (a b k : ℕ) → a < 2 ^ k → b < 2 ^ k → bit_or a b < 2 ^ k
bit_or_bounded a b k ha hb =
    rw (bit_or-bitwise a b) (digits_bounded max (λ x y hx hy. omega arith) a a b k ha hb)

pub bit_xor_bounded : (a b k : ℕ) → a < 2 ^ k → b < 2 ^ k → bit_xor a b < 2 ^ k
bit_xor_bounded a b k ha hb =
    rw (bit_xor-bitwise a b) (digits_bounded differ differ_bit a a b k ha hb)

-- ===== src/Update/Crc/Value.antt =====
-- The value of `rtss_upd_calculate_crc32`: that it is there, how wide it is, and what it depends on.
use rtss_mailbox_umd.Base.{
  ℕ, zero, suc, ◌+◌, ◌-◌, ◌^◌, ◌<◌, ◌≤◌, ◌≡◌, ◌≢◌, refl, false, bit_or, bit_xor, some, arith,
}
use rtss_mailbox_umd.Base.Bits.{bit_or_bounded, bit_xor_bounded}
use rtss_mailbox_umd.Update.Crc.{
  Buffer, reflect_from, crc32_reflect, crc32_step, crc32_loop, e_ok, calculate_crc32,
}

pow_pos : (k : ℕ) → 0 < 2 ^ k
pow_pos zero = omega arith
pow_pos (suc k) = omega (arith, pow_pos k)

pow_mono : (i k : ℕ) → i < k → 2 ^ i < 2 ^ k
pow_mono i zero h = absurd (omega arith)
pow_mono zero (suc k) h = omega (arith, pow_pos k)
pow_mono (suc i) (suc k) h = omega (arith, pow_mono i k (omega arith))

reflect_bounded : (left i val res : ℕ) → res < 2 ^ 32 → reflect_from left i 31 val res < 2 ^ 32
reflect_bounded zero i val res h = h
reflect_bounded (suc left) i val res h =
    let wider = bit_or_bounded res (2 ^ (31 - i)) 32 h (pow_mono (31 - i) 32 (omega arith)) in
    let rest = reflect_bounded left (i + 1) val in
    ground (arith, rest res h, rest (bit_or res (2 ^ (31 - i))) wider)

-- A checksum of a buffer that is not empty.
abbrev pub value : Buffer → ℕ → ℕ
value buf len = bit_xor (crc32_reflect (crc32_loop len 0 buf 0xffff_ffff)) 0xffff_ffff

pub value_bounded : (buf : Buffer) (len : ℕ) → value buf len < 2 ^ 32
unfolding crc32_reflect
value_bounded buf len =
    bit_xor_bounded (crc32_reflect (crc32_loop len 0 buf 0xffff_ffff)) 0xffff_ffff 32
      (reflect_bounded 32 0 (crc32_loop len 0 buf 0xffff_ffff) 0 (omega arith)) (omega arith)

pub calculated :
    (buf : Buffer) (len : ℕ)
    → len ≢ 0
    → calculate_crc32 false (some buf) len ≡ (e_ok, some (value buf len))
unfolding calculate_crc32
calculated buf zero h = absurd (h refl)
calculated buf (suc len) h = ground arith

pub crc32_loop_ext :
    (n i : ℕ) (b c : Buffer) (crc : ℕ)
    → ((k : ℕ) → i ≤ k → k < i + n → b k ≡ c k)
    → crc32_loop n i b crc ≡ crc32_loop n i c crc
unfolding crc32_loop
crc32_loop_ext zero i b c crc same = refl
crc32_loop_ext (suc n) i b c crc same = rw (same i (omega arith) (omega arith)) (
    crc32_loop_ext n (i + 1) b c (crc32_step crc (c i))
      (λ k l u. same k (omega arith) (omega arith)))

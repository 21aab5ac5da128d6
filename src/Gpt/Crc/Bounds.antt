-- ===== src/Gpt/Crc/Bounds.antt =====
-- The checksum of the GPT library has 32 bits, whatever the buffer.
use rtss_mailbox_umd.Base.{
  ℕ, zero, suc, ◌+◌, ◌/◌, ◌^◌, ◌≤◌, ◌<◌, ◌≡◌, refl, arith, true, ltb, ltb→lt, bit_xor, get_or, u8,
  some, dec_lt, List, [], ◌∷◌, length,
}
use rtss_mailbox_umd.Base.Bits.{bit_xor_bounded}
use rtss_mailbox_umd.Base.Table.{entries_pass, entries_pass_at}
use rtss_mailbox_umd.Gpt.CrcTable.{crc32_table}
use rtss_mailbox_umd.Gpt.Crc.{Buffer, crc_step, crc_loop, calc_crc32}

get_or_beyond : (xs : List ℕ) (k : ℕ) → length xs ≤ k → get_or xs k 0 ≡ 0
get_or_beyond [] k h = refl
get_or_beyond (x ∷ xs) zero h = absurd (omega arith)
get_or_beyond (x ∷ xs) (suc k) h = get_or_beyond xs k (omega arith)

entries_small : entries_pass (λ i. ltb (get_or crc32_table i 0) (2 ^ 32)) 0 256 ≡ true
unfolding entries_pass crc32_table
entries_small = refl

table_length : length crc32_table ≡ 256
unfolding crc32_table
table_length = refl

entry_small : (i : ℕ) → get_or crc32_table i 0 < 2 ^ 32
entry_small i = elim (dec_lt i 256) [
  | yes inside ↦ ltb→lt _ (2 ^ 32) (entries_pass_at _ 0 256 i (omega arith) inside entries_small)
  | no beyond ↦ omega (arith, get_or_beyond crc32_table i (omega (arith, table_length)))
]

crc_loop_bounded : (n pos : ℕ) (b : Buffer) (crc : ℕ) → crc < 2 ^ 32 → crc_loop n pos b crc < 2 ^ 32
unfolding crc_loop crc_step
crc_loop_bounded zero pos b crc h = h
crc_loop_bounded (suc n) pos b crc h = crc_loop_bounded n (pos + 1) b (crc_step crc (b pos)) (
    bit_xor_bounded (crc / 256) (get_or crc32_table (bit_xor (u8 crc) (b pos)) 0) 32 (omega arith)
      (entry_small (bit_xor (u8 crc) (b pos))))

pub calc_crc32_bounded : (b : Buffer) (n : ℕ) → calc_crc32 (some b) n 0 < 2 ^ 32
unfolding calc_crc32
calc_crc32_bounded b n = ground (
  arith,
  bit_xor_bounded (crc_loop n 0 b 0xffff_ffff) 0xffff_ffff 32
      (crc_loop_bounded n 0 b 0xffff_ffff (omega arith)) (omega arith),
)

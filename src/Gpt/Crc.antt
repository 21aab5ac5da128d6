-- ===== src/Gpt/Crc.antt =====
-- `rtss_gpt_calc_crc32` of apps/rtss-updater/lib/rtss_gpt/src/rtss_guidpt.c. A buffer is a
-- function of the position, each value a byte.
pub mod Bounds
use rtss_mailbox_umd.Base.{
  arith, ℕ, zero, suc, ◌+◌, ◌/◌, ◌%◌, ◌==◌, ◌<◌, ◌≡◌, refl, if◌then◌else◌, u8, bit_xor, get_or,
  Option, none, some, true, ==_iff,
}
use rtss_mailbox_umd.Base.Table.{entries_pass, entries_pass_at}
use rtss_mailbox_umd.Gpt.CrcTable.{crc32_table}

abbrev pub Buffer : Type 0
Buffer = ℕ → ℕ

-- crc = (crc >> 8) ^ table[(uint8_t)crc ^ byte]
unfoldable pub crc_step : ℕ → ℕ → ℕ
crc_step crc byte = bit_xor (crc / 256) (get_or crc32_table (bit_xor (u8 crc) byte) 0)

-- `left` bytes from position `pos` on
unfoldable pub crc_loop : ℕ → ℕ → Buffer → ℕ → ℕ
unfolding crc_step
crc_loop zero pos data_ crc = crc
crc_loop (suc left) pos data_ crc = crc_loop left (pos + 1) data_ (crc_step crc (data_ pos))

unfoldable pub calc_crc32 : Option Buffer → ℕ → ℕ → ℕ
unfolding crc_loop
calc_crc32 none nbytes seed = 0
calc_crc32 (some data_) nbytes seed =
    if nbytes == 0
    then 0
    else bit_xor (crc_loop nbytes 0 data_ (bit_xor 0xffff_ffff seed)) 0xffff_ffff

-- Division by the polynomial, bit by bit: the reference that the table stands for.
pub poly_bits : ℕ → ℕ → ℕ
poly_bits zero c = c
poly_bits (suc n) c = poly_bits n (if c % 2 == 1 then bit_xor (c / 2) 0xedb8_8320 else c / 2)

table_checked : entries_pass (λ i. get_or crc32_table i 0 == poly_bits 8 i) 0 256 ≡ true
unfolding entries_pass crc32_table poly_bits
table_checked = refl

-- Every entry of the table is the remainder of its index, eight bits divided by the reflected
-- CRC-32 polynomial 0xEDB88320.
pub crc32_table-poly_bits : (i : ℕ) → i < 256 → get_or crc32_table i 0 ≡ poly_bits 8 i
crc32_table-poly_bits i h = (==_iff _ _).0 (entries_pass_at _ 0 256 i (omega arith) h table_checked)

-- the check value of CRC-32, over the text "123456789"
crc_of_digits : calc_crc32 (some (λ k. k + 49)) 9 0 ≡ 0xcbf4_3926
unfolding calc_crc32 crc32_table
crc_of_digits = refl

-- ===== src/Update/Crc.antt =====
-- The checksum of apps/rtss-updater/lib/rtss_update/src/rtss_update_lib.c. A buffer is a function
-- of the position, each value a byte. The one channel reflects its input and its result.
pub mod Ext
pub mod Value
use rtss_mailbox_umd.Base.{
  ℕ, zero, suc, ◌+◌, ◌-◌, ◌*◌, ◌/◌, ◌%◌, ◌^◌, ◌<◌, ◌≡◌, ◌↔◌, refl, Bool, true, ◌==◌, leb,
  if◌then◌else◌, u8, u32, bit_or, bit_xor, get_or, Option, none, some, arith, ==_iff,
}
use rtss_mailbox_umd.Base.Table.{entries_pass, entries_pass_at}
use rtss_mailbox_umd.Gpt.CrcTable.{crc32_table}
use rtss_mailbox_umd.Update.CrcTable.{crc32_ethernet_table}

abbrev pub Buffer : Type 0
Buffer = ℕ → ℕ

-- The loop of both reflections: bit `i` of the value goes to bit `last - i`.
abbrev pub reflect_from : ℕ → ℕ → ℕ → ℕ → ℕ → ℕ
reflect_from zero i last val res = res
reflect_from (suc left) i last val res =
    reflect_from left (i + 1) last val
      (if val / 2 ^ i % 2 == 0 then res else bit_or res (2 ^ (last - i)))

unfoldable pub crc8_reflect : ℕ → ℕ
crc8_reflect val = reflect_from 8 0 7 val 0

unfoldable pub crc32_reflect : ℕ → ℕ
crc32_reflect val = reflect_from 32 0 31 val 0

-- The index is the top byte of the register with the reflected byte mixed in.
unfoldable pub crc32_step : ℕ → ℕ → ℕ
unfolding crc8_reflect
crc32_step crc byte =
    let tmp = crc8_reflect byte in
    let lutidx = u8 (bit_xor crc (u32 (tmp * 2 ^ 24)) / 2 ^ 24) in
    bit_xor (u32 (crc * 2 ^ 8)) (get_or crc32_ethernet_table lutidx 0)

-- `left` bytes from position `bufidx` on
unfoldable pub crc32_loop : ℕ → ℕ → Buffer → ℕ → ℕ
unfolding crc32_step
crc32_loop zero bufidx buf crc = crc
crc32_loop (suc left) bufidx buf crc =
    crc32_loop left (bufidx + 1) buf (crc32_step crc (buf bufidx))

-- rtss_crc_status_t
pub data CrcStatus : Type 0 where
  crc_success : CrcStatus
  crc_invalid_parameter : CrcStatus
  crc_error : CrcStatus

-- Whether the output pointer is NULL comes as a truth value, and the value it gets is an option.
unfoldable pub crc32_generate : ℕ → Option Buffer → ℕ → Bool → CrcStatus × Option ℕ
crc32_generate channel_id none len out_null = (crc_invalid_parameter, none)
crc32_generate channel_id (some buf) len out_null =
    if out_null
    then (crc_invalid_parameter, none)
    else if len == 0
    then (crc_invalid_parameter, none)
    else if leb 1 channel_id
    then (crc_invalid_parameter, none)
    else (
      crc_success,
      some (bit_xor (crc32_reflect (crc32_loop len 0 buf 0xffff_ffff)) 0xffff_ffff),
    )

abbrev verified : ℕ → CrcStatus × Option ℕ → CrcStatus
verified crc (st, none) = st
verified crc (st, some c) = if c == crc then st else crc_error

unfoldable pub crc32_verify : ℕ → Option Buffer → ℕ → ℕ → CrcStatus
unfolding crc32_generate
crc32_verify channel_id buf len crc = verified crc (crc32_generate channel_id buf len Bool.false)

-- RTSS_UPD_E_ERR
abbrev pub e_err : ℕ
e_err = 3

abbrev pub e_ok : ℕ
e_ok = 0

abbrev code_of : CrcStatus → ℕ
code_of crc_success = e_ok
code_of crc_invalid_parameter = e_err
code_of crc_error = e_err

-- the code, and the value behind the pointer where it is written
unfoldable pub calculate_crc32 : Bool → Option Buffer → ℕ → ℕ × Option ℕ
unfolding crc32_generate
calculate_crc32 out_null addr len =
    let (st, value) = crc32_generate 0 addr len out_null in (code_of st, value)

unfoldable pub verify_crc32 : ℕ → Option Buffer → ℕ → ℕ
unfolding crc32_verify
verify_crc32 crc addr len = code_of (crc32_verify 0 addr len crc)

-- Division by the polynomial with the most significant bit first, bit by bit.
pub msb_bits : ℕ → ℕ → ℕ
msb_bits zero c = c
msb_bits (suc n) c =
    msb_bits n (if c / 2 ^ 31 == 1 then bit_xor (u32 (c * 2)) 0x04c1_1db7 else u32 (c * 2))

entries_checked :
    entries_pass (λ i. get_or crc32_ethernet_table i 0 == msb_bits 8 (i * 2 ^ 24)) 0 256 ≡ true
unfolding entries_pass crc32_ethernet_table msb_bits
entries_checked = refl

-- Every entry of the Ethernet table is the remainder of its index, in the top byte, eight bits
-- divided by the CRC-32 polynomial 0x04C11DB7.
pub crc32_ethernet_table-msb_bits :
    (i : ℕ) → i < 256 → get_or crc32_ethernet_table i 0 ≡ msb_bits 8 (i * 2 ^ 24)
crc32_ethernet_table-msb_bits i h =
    (==_iff _ _).0 (entries_pass_at _ 0 256 i (omega arith) h entries_checked)

mirror_checked :
    entries_pass
      (λ i.
        crc32_reflect (get_or crc32_ethernet_table i 0) == get_or crc32_table (crc8_reflect i) 0)
      0
      256
    ≡ true
unfolding entries_pass crc32_ethernet_table crc32_table crc32_reflect crc8_reflect
mirror_checked = refl

-- The tables of the two libraries mirror each other: an entry of the update library, reflected, is
-- the entry of the GPT library at the reflected index.
pub crc32_reflect-crc32_table :
    (i : ℕ)
    → i < 256
    → crc32_reflect (get_or crc32_ethernet_table i 0) ≡ get_or crc32_table (crc8_reflect i) 0
crc32_reflect-crc32_table i h =
    (==_iff _ _).0 (entries_pass_at _ 0 256 i (omega arith) h mirror_checked)

-- What is calculated is what the verification accepts, and nothing else.
pub verify_crc32-calculate_crc32 :
    (addr : Option Buffer) (len crc : ℕ)
    → (verify_crc32 crc addr len ≡ e_ok) ↔ (calculate_crc32 Bool.false addr len ≡ (e_ok, some crc))
unfolding verify_crc32 calculate_crc32 crc32_verify crc32_generate
verify_crc32-calculate_crc32 none len crc = ((λ h. ground arith), (λ h. ground arith))
verify_crc32-calculate_crc32 (some buf) len crc = ((λ h. ground arith), (λ h. ground arith))

-- the check value of CRC-32, over the text "123456789"
crc32_of_digits : calculate_crc32 Bool.false (some (λ k. k + 49)) 9 ≡ (0, some 0xcbf4_3926)
unfolding calculate_crc32 crc32_generate crc32_loop crc32_reflect crc32_ethernet_table
crc32_of_digits = refl

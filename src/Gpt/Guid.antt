-- ===== src/Gpt/Guid.antt =====
-- GUIDs in apps/rtss-updater/lib/rtss_gpt/src/rtss_guidpt.c: comparison and decoding.
pub mod Decode
use rtss_mailbox_umd.Base.{
  ℕ, zero, suc, ◌+◌, ◌-◌, ◌*◌, ◌%◌, ◌^◌, Bool, true, false, not, ◌&&◌, ◌||◌, ltb, leb, ◌==◌,
  if◌then◌else◌, u8, u32, bit_or, Option, none, some, List, [], ◌∷◌, length, get_or,
}
use rtss_mailbox_umd.Gpt.Crc.{Buffer}

-- rtss_gpt_guid_t; data4 has 8 bytes
pub record Guid : Type 0 where
  pub data1 : ℕ
  pub data2 : ℕ
  pub data3 : ℕ
  pub data4 : List ℕ

pub is_hex_digit : ℕ → Bool
is_hex_digit ch =
    (leb ch b'9' && leb b'0' ch) || (leb ch b'f' && leb b'a' ch) || (leb ch b'F' && leb b'A' ch)

pub nibble_of : ℕ → ℕ
nibble_of ch =
    if leb b'0' ch && leb ch b'9'
    then u32 (ch - b'0')
    else if leb b'a' ch && leb ch b'f'
    then u32 (ch - b'a' + 10)
    else u32 (ch + 2 ^ 32 - b'A' + 10)

-- `left` digits from position `pos` on; the shift by 4 drops what passes 32 bits
pub hex_from : ℕ → ℕ → List ℕ → ℕ → ℕ
unfolding nibble_of
hex_from zero pos hex value = value
hex_from (suc left) pos hex value =
    hex_from left (pos + 1) hex (bit_or (u32 (value * 16)) (nibble_of (get_or hex pos 0)))

pub hex2dec : List ℕ → ℕ → ℕ → ℕ
unfolding hex_from
hex2dec hex pos count = hex_from count pos hex 0

-- Whether the character at position `i` may stand there. Behind its end the string has the NUL,
-- which the loop does not reach.
pub char_allowed : ℕ → ℕ → Bool
unfolding is_hex_digit
char_allowed i ch =
    is_hex_digit ch
    || ((i == 8 || i == 13 || i == 18 || i == 23) && ch == b'-')
    || (i == 36 && ch == 0)

pub chars_allowed : ℕ → ℕ → List ℕ → Bool
unfolding char_allowed
chars_allowed zero i s = true
chars_allowed (suc left) i s =
    if char_allowed i (get_or s i 0) then chars_allowed left (i + 1) s else false

abbrev pub guid_string_size : ℕ
guid_string_size = 36

-- A uint16_t or uint8_t member keeps the low bits of what is assigned to it.
pub decode_guid_string : Option (List ℕ) → Option Guid
decode_guid_string none = none
decode_guid_string (some s) =
    if not (length s == guid_string_size)
    then none
    else if not (chars_allowed guid_string_size 0 s)
    then none
    else some (record {
      data1 = hex2dec s 0 8;
      data2 = hex2dec s 9 4 % 2 ^ 16;
      data3 = hex2dec s 14 4 % 2 ^ 16;
      data4 =
          u8 (hex2dec s 19 2)
          ∷ u8 (hex2dec s 21 2)
          ∷ u8 (hex2dec s 24 2)
          ∷ u8 (hex2dec s 26 2)
          ∷ u8 (hex2dec s 28 2)
          ∷ u8 (hex2dec s 30 2)
          ∷ u8 (hex2dec s 32 2)
          ∷ u8 (hex2dec s 34 2)
          ∷ [];
    })

bytes_equal : ℕ → ℕ → List ℕ → List ℕ → Bool
bytes_equal zero k a b = true
bytes_equal (suc n) k a b =
    if get_or a k 0 == get_or b k 0 then bytes_equal n (k + 1) a b else false

-- The comparison of `rtss_gpt_verify_partition_guid`.
pub same_guid : Guid → Guid → Bool
unfolding bytes_equal
same_guid a b =
    a.data1 == b.data1
    && a.data2 == b.data2
    && a.data3 == b.data3
    && bytes_equal 8 0 a.data4 b.data4

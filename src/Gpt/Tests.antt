-- ===== src/Gpt/Tests.antt =====
-- A device that reads an image, and runs of the theorems of the GPT library.
use rtss_mailbox_umd.Base.{
  ℕ, ◌+◌, ◌-◌, ◌<◌, ◌≡◌, ◌≢◌, ◌↔◌, refl, true, false, none, some, List, [], ◌∷◌, length, get_or,
  ltb, if◌then◌else◌, ◌==◌,
}
use rtss_mailbox_umd.Gpt.CrcTable.{crc32_table}
use rtss_mailbox_umd.Gpt.Crc.{Buffer, calc_crc32, crc_loop, crc_step}
use rtss_mailbox_umd.Gpt.Guid.{Guid, decode_guid_string}
use rtss_mailbox_umd.Gpt.Guid.Decode.{decode_accepts, Fits}
use rtss_mailbox_umd.Gpt.Partition.{
  ReadCb, State, partition_init, zero_header, locate, partition_try, verify_header_crc32,
  signature_ok, verify_partition_entry_crc32, entries_crc,
}
use rtss_mailbox_umd.Gpt.Partition.Lookup.{partition_init_verified, IsUsable}

abbrev demo_guid : Guid
demo_guid = record {
  data1 = 0x1234_5678;
  data2 = 0x1234;
  data3 = 0x1234;
  data4 = 0x12 ∷ 0x34 ∷ 0x12 ∷ 0x34 ∷ 0x56 ∷ 0x78 ∷ 0x12 ∷ 0x34 ∷ [];
}

-- "12345678-1234-1234-1234-567812345678", and the same digits with no dash among them
abbrev demo_string : ℕ → List ℕ
demo_string dash =
    49 ∷ 50 ∷ 51 ∷ 52 ∷ 53 ∷ 54 ∷ 55 ∷ 56 ∷ dash ∷ 49 ∷ 50 ∷ 51 ∷ 52 ∷ dash ∷ 49 ∷ 50 ∷ 51 ∷ 52
    ∷ dash ∷ 49 ∷ 50 ∷ 51 ∷ 52 ∷ dash ∷ 53 ∷ 54 ∷ 55 ∷ 56 ∷ 49 ∷ 50 ∷ 51 ∷ 52 ∷ 53 ∷ 54 ∷ 55 ∷ 56
    ∷ []

decode_accepts_example :
    (decode_guid_string (some (demo_string 48)) ≢ none)
    ↔ ((length (demo_string 48) ≡ 36) × ((i : ℕ) → i < 36 → Fits i (get_or (demo_string 48) i 0)))
decode_accepts_example = decode_accepts (demo_string 48)

abbrev demo_image : Buffer
demo_image a = if ltb a 128 then 0 else if a == 128 then 5 else if a == 168 then 7 else 0

abbrev demo_device : ReadCb
demo_device buf a n = (n, λ k. demo_image (a + k))

abbrev five_guid : Guid
five_guid = record { data1 = 5; data2 = 0; data3 = 0; data4 = 0 ∷ 0 ∷ 0 ∷ 0 ∷ 0 ∷ 0 ∷ 0 ∷ 0 ∷ [] }

-- a header with no entries at block 1: the signature, the size 92 and the checksum
abbrev demo_header : List ℕ
demo_header =
    69 ∷ 70 ∷ 73 ∷ 32 ∷ 80 ∷ 65 ∷ 82 ∷ 84 ∷ 0 ∷ 0 ∷ 0 ∷ 0 ∷ 92 ∷ 0 ∷ 0 ∷ 0 ∷ 61 ∷ 183 ∷ 35 ∷ 255
    ∷ []

abbrev header_device : ReadCb
header_device buf a n = (n, λ k. get_or demo_header (a + k - 4096) 0)

abbrev closed : State
closed = record {
  hdr = zero_header;
  init_done = false;
  read_cb = none;
  block_count = 0;
  work_buf = none;
  work_buf_sz = 0;
  read_alignment = 0;
  gpt_id = 0;
}

demo_init : (partition_init closed 100 (some header_device) (some zero_header) 128 4).0 ≡ true
unfolding partition_init locate partition_try verify_header_crc32 signature_ok
    verify_partition_entry_crc32 entries_crc calc_crc32 crc_loop crc_step crc32_table
demo_init = refl

partition_init_verified_example :
    IsUsable (partition_init closed 100 (some header_device) (some zero_header) 128 4).1
partition_init_verified_example =
    partition_init_verified closed 100 (some header_device) (some zero_header) 128 4 demo_init

-- ===== src/Gpt/Partition/Lookup.antt =====
-- The search for a partition, on a device that gives the bytes of an image.
use rtss_mailbox_umd.Base.{
  ℕ, zero, suc, ◌+◌, ◌-◌, ◌*◌, ◌%◌, ◌^◌, ◌≡◌, ltb, [], ◌∷◌, ◌⊎◌, arith, true, Option, none, some,
  u32, sub32, ◌==◌, if◌then◌else◌,
}
use rtss_mailbox_umd.Gpt.Crc.{Buffer}
use rtss_mailbox_umd.Gpt.Guid.{Guid, same_guid}
use rtss_mailbox_umd.Gpt.Partition.{
  ReadCb, lba_sz, State, partition_init, partition_try, verify_header_crc32, signature_ok, locate,
  buffer_of, aligned_header,
}

-- The callback reads all that is asked for, from an image of the device.
abbrev pub Reads : ReadCb → Buffer → Type 0
Reads cb image = (buf : Buffer) (a n : ℕ) → cb buf a n ≡ (n, λ k. image (a + k))

-- Entry `i` of the table at `base`, with entries of `size` bytes.
abbrev pub entry_at : Buffer → ℕ → ℕ → ℕ → Buffer
entry_at image base size i k = image (u32 (base + u32 (i * size)) + k)

-- The number in `n` bytes from `a` on, its lowest byte first.
abbrev pub number : Buffer → ℕ → ℕ → ℕ
number b a zero = 0
number b a (suc n) = b a + 256 * number b (a + 1) n

-- An entry of a table as UEFI lays it out: the GUID of its type in the first 16 bytes, as one number
-- of four bytes, two of two and eight single bytes, and its first and last block of 4096 bytes in the
-- two numbers of eight bytes from byte 32 on.
abbrev pub type_of : Buffer → Guid
type_of e = record {
  data1 = number e 0 4;
  data2 = number e 4 2;
  data3 = number e 6 2;
  data4 = e 8 ∷ e 9 ∷ e 10 ∷ e 11 ∷ e 12 ∷ e 13 ∷ e 14 ∷ e 15 ∷ [];
}

abbrev pub first_block : Buffer → ℕ
first_block e = number e 32 8

abbrev pub last_block : Buffer → ℕ
last_block e = number e 40 8

-- Its start and its length in bytes, as far as they fit 32 bits; both blocks belong to it.
abbrev pub start_of : Buffer → ℕ
start_of e = first_block e * 4096 % 2 ^ 32

abbrev pub length_of : Buffer → ℕ
length_of e =
    if ltb (last_block e) (first_block e)
    then 0
    else (last_block e + 1 - first_block e) * 4096 % 2 ^ 32

-- The first of `left` entries from `i` on that has the GUID.
abbrev pub first_match : ℕ → ℕ → Buffer → ℕ → ℕ → Guid → Option ℕ
first_match zero i image base size guid = none
first_match (suc left) i image base size guid =
    if same_guid (type_of (entry_at image base size i)) guid
    then some i
    else first_match left (i + 1) image base size guid

-- Its start and its length, unless that is 0.
abbrev pub location : Buffer → ℕ → ℕ → Option ℕ → Option (ℕ × ℕ)
location image base size none = none
location image base size (some i) =
    let e = entry_at image base size i in
    if length_of e == 0 then none else some (start_of e, length_of e)

-- A table that a try accepts has the signature and the checksum of its header.
partition_try_accepts :
    (s : State) (cb : ReadCb) (buf : Buffer) (start_addr sz : ℕ)
    → let (r, s') = partition_try s cb buf start_addr sz in
      r ≡ true → (signature_ok s'.hdr ≡ true) × (verify_header_crc32 s'.hdr 0 ≡ true)
unfolding partition_try
partition_try_accepts s cb buf start_addr sz h = ground arith

-- The header kept has the signature and its checksum, the table in use is the primary or the
-- secondary one, and lookups are open.
abbrev pub IsUsable : State → Type 0
IsUsable s =
    (signature_ok s.hdr ≡ true)
    × (verify_header_crc32 s.hdr 0 ≡ true)
    × (s.init_done ≡ true)
    × ((s.gpt_id ≡ 1) ⊎ (s.gpt_id ≡ 2))

locate_accepts :
    (s : State) (cb : ReadCb) (buf : Buffer) (block_count sz : ℕ)
    → let (r, s') = locate s cb buf block_count sz in r ≡ true → IsUsable s'
unfolding locate
locate_accepts s cb buf block_count sz h =
    let (first, s1) = partition_try s cb buf lba_sz sz in
    let one = partition_try_accepts s cb buf lba_sz sz in
    let two =
      partition_try_accepts s1 cb (buffer_of s1 buf) (u32 (sub32 block_count 1 * lba_sz)) sz in
    ground arith

-- A successful initialisation leaves a usable state: the header it keeps has the signature and its
-- checksum, the table in use is the primary or the secondary one, and lookups are open. This is
-- so for every device, also one that answers the same read differently.
pub partition_init_verified :
    (s : State) (block_count : ℕ) (cb : Option ReadCb) (buf : Option Buffer) (buf_sz alignment : ℕ)
    → let (r, s') = partition_init s block_count cb buf buf_sz alignment in r ≡ true → IsUsable s'
unfolding partition_init
partition_init_verified s block_count none buf buf_sz alignment h = absurd (ground arith)
partition_init_verified s block_count (some cb) none buf_sz alignment h = absurd (ground arith)
partition_init_verified s block_count (some cb) (some buf) buf_sz alignment h =
    let s1 = record s {
      read_cb = some cb;
      work_buf = some buf;
      work_buf_sz = buf_sz;
      read_alignment = alignment;
      block_count = block_count;
    } in
    ground (arith, locate_accepts s1 cb buf block_count (aligned_header alignment))

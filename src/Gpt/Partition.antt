-- ===== src/Gpt/Partition.antt =====
-- The partition table of apps/rtss-updater/lib/rtss_gpt/src/rtss_guidpt.c: the packed header and
-- entries, their checksums, and the module's state. The device is the read callback, which gives
-- the number of bytes read and the buffer behind the read.
pub mod Lookup
use rtss_mailbox_umd.Base.{
  ℕ, zero, suc, ◌+◌, ◌-◌, ◌*◌, ◌/◌, ◌%◌, ◌^◌, Bool, true, false, not, ◌&&◌, ◌||◌, ltb, leb, ◌==◌,
  if◌then◌else◌, u32, u64, sub32, bit_xor, Option, none, some, List, [], ◌∷◌, tabulate,
}
use rtss_mailbox_umd.Gpt.Crc.{Buffer, crc_loop, calc_crc32}
use rtss_mailbox_umd.Gpt.Guid.{Guid, same_guid}

-- rtss_gpt_entry_read_cb_t: the buffer, the first byte and the size
abbrev pub ReadCb : Type 0
ReadCb = Buffer → ℕ → ℕ → ℕ × Buffer

abbrev pub le16 : Buffer → ℕ → ℕ
le16 b a = b a + 256 * b (a + 1)

abbrev pub le32 : Buffer → ℕ → ℕ
le32 b a = le16 b a + 65536 * le16 b (a + 2)

abbrev pub le64 : Buffer → ℕ → ℕ
le64 b a = le32 b a + 2 ^ 32 * le32 b (a + 4)

-- sizeof(rtss_gpt_header_t)
abbrev pub header_sz : ℕ
header_sz = 92

-- sizeof(rtss_gpt_entry_t)
abbrev pub entry_sz : ℕ
entry_sz = 128

abbrev pub lba_sz : ℕ
lba_sz = 4096

-- The members of rtss_gpt_header_t, read off its bytes.
module _ (hdr : Buffer) where
  abbrev pub header_size : ℕ
  header_size = le32 hdr 12

  abbrev pub header_crc32 : ℕ
  header_crc32 = le32 hdr 16

  abbrev pub my_lba : ℕ
  my_lba = le64 hdr 24

  abbrev pub alternate_lba : ℕ
  alternate_lba = le64 hdr 32

  abbrev pub partition_entry_lba : ℕ
  partition_entry_lba = le64 hdr 72

  abbrev pub number_of_partition_entries : ℕ
  number_of_partition_entries = le32 hdr 80

  abbrev pub size_of_partition_entry : ℕ
  size_of_partition_entry = le32 hdr 84

  abbrev pub partition_entries_crc32 : ℕ
  partition_entries_crc32 = le32 hdr 88

-- The members of rtss_gpt_entry_t.
module _ (entry : Buffer) where
  abbrev pub partition_type_guid : Guid
  partition_type_guid = record {
    data1 = le32 entry 0;
    data2 = le16 entry 4;
    data3 = le16 entry 6;
    data4 = tabulate 8 (λ k. entry (8 + k));
  }

  abbrev pub starting_lba : ℕ
  starting_lba = le64 entry 32

  abbrev pub ending_lba : ℕ
  ending_lba = le64 entry 40

pub is_primary_header : Buffer → Bool
is_primary_header hdr = my_lba hdr == 1

pub get_partition_entry_lba_base : Buffer → ℕ → ℕ
get_partition_entry_lba_base hdr lba = u64 (partition_entry_lba hdr * lba)

pub get_partition_base : Option Buffer → ℕ → ℕ
get_partition_base none lba = 0
get_partition_base (some entry) lba = u64 (starting_lba entry * lba)

pub get_partition_size : Option Buffer → ℕ → ℕ
get_partition_size none lba = 0
get_partition_size (some entry) lba =
    if ltb (ending_lba entry) (starting_lba entry)
    then 0
    else u64 (u64 (ending_lba entry - starting_lba entry + 1) * lba)

pub verify_partition_guid : Option Buffer → Option Guid → Bool
verify_partition_guid none guid = false
verify_partition_guid (some entry) none = false
verify_partition_guid (some entry) (some guid) = same_guid (partition_type_guid entry) guid

-- The loop over the entries: the checksum, or `none` where a read is short, and the buffer.
unfoldable pub entries_crc : ℕ → ℕ → ReadCb → ℕ → ℕ → Buffer → ℕ → Option ℕ × Buffer
entries_crc zero i cb base size buf crc = (some crc, buf)
entries_crc (suc left) i cb base size buf crc =
    let (nbytes, buf') = cb buf (u32 (base + u32 (i * size))) size in
    let rest = entries_crc left (i + 1) cb base size buf' (crc_loop nbytes 0 buf' crc) in
    if not (nbytes == size) then (none, buf') else rest

abbrev crc_matches : ℕ → Option ℕ → Bool
crc_matches want none = false
crc_matches want (some crc) = bit_xor crc 0xffff_ffff == want

unfoldable pub verify_partition_entry_crc32 : ℕ → Buffer → Buffer → ReadCb → ℕ → ℕ → Bool × Buffer
unfolding entries_crc
verify_partition_entry_crc32 work_buf_sz hdr buf cb lba seed =
    let size = size_of_partition_entry hdr in
    let base = u32 (u64 (partition_entry_lba hdr * lba)) in
    let (crc, buf') =
      entries_crc (number_of_partition_entries hdr) 0 cb base size buf (bit_xor 0xffff_ffff seed) in
    if ltb work_buf_sz size
    then (false, buf)
    else (crc_matches (partition_entries_crc32 hdr) crc, buf')

-- The header with its checksum set to 0.
abbrev pub zero_crc : Buffer → Buffer
zero_crc hdr k = if leb 16 k && ltb k 20 then 0 else hdr k

-- The checksum is put back before the return.
unfoldable pub verify_header_crc32 : Buffer → ℕ → Bool
verify_header_crc32 hdr seed =
    if ltb header_sz (header_size hdr)
    then false
    else header_crc32 hdr == calc_crc32 (some (zero_crc hdr)) (header_size hdr) seed

-- "EFI PART"
unfoldable pub signature_ok : Buffer → Bool
signature_ok hdr =
    hdr 0 == b'E'
    && hdr 1 == b'F'
    && hdr 2 == b'I'
    && hdr 3 == b' '
    && hdr 4 == b'P'
    && hdr 5 == b'A'
    && hdr 6 == b'R'
    && hdr 7 == b'T'

-- The static variables of the module. A pointer is `none` where it is NULL.
pub record State : Type 0 where
  pub hdr : Buffer
  pub init_done : Bool
  pub read_cb : Option ReadCb
  pub block_count : ℕ
  pub work_buf : Option Buffer
  pub work_buf_sz : ℕ
  pub read_alignment : ℕ
  pub gpt_id : ℕ

abbrev pub table_null : ℕ
table_null = 0

abbrev pub table_primary : ℕ
table_primary = 1

abbrev pub table_secondary : ℕ
table_secondary = 2

abbrev pub zero_header : Buffer
zero_header k = 0

-- `rtss_gpt_partition_try` on a state with a callback and a buffer. The copy of the header takes
-- all its bytes, so its test for 0 never passes. The alternate address it stores is not used in
-- this build.
unfoldable pub partition_try : State → ReadCb → Buffer → ℕ → ℕ → Bool × State
partition_try s cb buf start_addr sz =
    let (nbytes, buf') = cb buf start_addr sz in
    let s1 = record s { work_buf = some buf' } in
    let s2 = record s1 { hdr = buf' } in
    let (entries_ok, buf2) = verify_partition_entry_crc32 s.work_buf_sz buf' buf' cb lba_sz 0 in
    if not (sz == nbytes)
    then (false, s1)
    else if not (signature_ok buf')
    then (false, s2)
    else if not (verify_header_crc32 buf' 0)
    then (false, s2)
    else (entries_ok, record s2 { work_buf = some buf2 })

-- The buffer that the second try starts from.
abbrev pub buffer_of : State → Buffer → Buffer
buffer_of s buf = elim s.work_buf [ none ↦ buf | some b ↦ b ]

-- The two tries, at block 1 and at the last block.
unfoldable pub locate : State → ReadCb → Buffer → ℕ → ℕ → Bool × State
locate s cb buf block_count sz =
    let (first, s1) = partition_try s cb buf lba_sz sz in
    let (second, s2) =
      partition_try s1 cb (buffer_of s1 buf) (u32 (sub32 block_count 1 * lba_sz)) sz in
    if first
    then (true, record s1 { gpt_id = table_primary; init_done = true })
    else if second
    then (true, record s2 { gpt_id = table_secondary; init_done = true })
    else (false, record s2 { gpt_id = table_null; hdr = zero_header })

-- the size of the header rounded up to the alignment
abbrev pub aligned_header : ℕ → ℕ
aligned_header alignment =
    if header_sz % alignment == 0
    then header_sz
    else u32 (u32 (header_sz + alignment) + 2 ^ 32 - header_sz % alignment)

unfoldable pub partition_init : State → ℕ → Option ReadCb → Option Buffer → ℕ → ℕ → Bool × State
unfolding locate
partition_init s block_count none buf buf_sz alignment = (false, s)
partition_init s block_count (some cb) none buf_sz alignment = (false, s)
partition_init s block_count (some cb) (some buf) buf_sz alignment =
    let s1 = record s {
      read_cb = some cb;
      work_buf = some buf;
      work_buf_sz = buf_sz;
      read_alignment = alignment;
      block_count = block_count;
    } in
    let sz = aligned_header alignment in
    if alignment == 0
    then (false, s)
    else if ltb buf_sz sz || ltb buf_sz entry_sz
    then (false, s1)
    else locate s1 cb buf block_count sz

pub partition_deinit : State → State
partition_deinit s = record s {
  hdr = zero_header;
  read_cb = none;
  work_buf = none;
  work_buf_sz = 0;
  read_alignment = 0;
  init_done = false;
}

-- The loop of `rtss_gpt_get_partition_info`: the start and the size of the first entry with the
-- GUID. A read that is short, and an entry of size 0, end the search.
pub find_entry : ℕ → ℕ → ReadCb → ℕ → ℕ → Buffer → Guid → Option (ℕ × ℕ) × Buffer
find_entry zero i cb base size buf guid = (none, buf)
find_entry (suc left) i cb base size buf guid =
    let (nbytes, buf') = cb buf (u32 (base + u32 (i * size))) size in
    let rest = find_entry left (i + 1) cb base size buf' guid in
    let start = u32 (get_partition_base (some buf') lba_sz) in
    let bytes = u32 (get_partition_size (some buf') lba_sz) in
    if not (size == nbytes)
    then (none, buf')
    else if not (verify_partition_guid (some buf') (some guid))
    then rest
    else if bytes == 0
    then (none, buf')
    else (some (start, bytes), buf')

abbrev with_buffer : State → Option (ℕ × ℕ) × Buffer → Option (ℕ × ℕ) × State
with_buffer s (found, buf) = (found, record s { work_buf = some buf })

-- The two output pointers are not NULL. An initialised state has a callback and a buffer.
pub get_partition_info : State → Option Guid → Option (ℕ × ℕ) × State
unfolding find_entry
get_partition_info s none = (none, s)
get_partition_info s (some guid) =
    let base = u32 (u32 (partition_entry_lba s.hdr) * lba_sz) in
    let size = size_of_partition_entry s.hdr in
    if not s.init_done
    then (none, s)
    else if ltb s.work_buf_sz size
    then (none, s)
    else elim s.read_cb [
      | none ↦ (none, s)
      | some cb ↦ with_buffer s (
          find_entry (number_of_partition_entries s.hdr) 0 cb base size (buffer_of s zero_header)
            guid)
    ]

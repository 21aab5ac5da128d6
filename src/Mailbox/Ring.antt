-- ===== src/Mailbox/Ring.antt =====
-- The item ring of one sub-region: the static functions of
-- middleware/safemlib/src/rtss_mailbox_lib.c that take the address of a sub-region. The bytes of
-- the items stand behind its header.
pub mod Item
pub mod Put
pub mod Get
pub mod Contents
pub mod Indices
pub mod Write
pub mod Append
pub mod Read
pub mod Remove
use rtss_mailbox_umd.Base.{
  ℕ, ◌+◌, ◌*◌, ◌%◌, Bool, true, false, ◌||◌, ltb, leb, ◌==◌, if◌then◌else◌, u32, sub32,
}
use rtss_mailbox_umd.Memory.{Memory, get_reg, get_const_reg, set_reg, libmbcopy_bytes}
use rtss_mailbox_umd.Mailbox.Layout.SubRgnDesc
use rtss_mailbox_umd.Mailbox.Layout.{mb_max_item_num, mb_max_size, mb_sub_region_header_sz}

unfoldable pub valid_item : Memory → ℕ → ℕ
valid_item m base =
    let write_index = get_reg m (SubRgnDesc.item_in_index base) in
    let read_index = get_reg m (SubRgnDesc.item_out_index base) in
    if leb read_index write_index
    then sub32 write_index read_index
    else u32 (sub32 (get_const_reg m (SubRgnDesc.max_item_num base)) read_index + write_index)

unfoldable pub free_item : Memory → ℕ → ℕ
free_item m base =
    let write_index = get_reg m (SubRgnDesc.item_in_index base) in
    let read_index = get_reg m (SubRgnDesc.item_out_index base) in
    let free_num =
      if leb read_index write_index
      then u32 (sub32 (get_const_reg m (SubRgnDesc.max_item_num base)) write_index + read_index)
      else sub32 read_index write_index in
    sub32 free_num 1

-- The product and the sums of the addresses are uint32_t.
unfoldable pub write_item : Memory → ℕ → ℕ → ℕ → Memory
write_item m base source_item_buf item_num =
    let item_size = get_reg m (SubRgnDesc.max_item_size base) in
    let item_write_index = get_reg m (SubRgnDesc.item_in_index base) in
    let item_ring_buffer_size = get_reg m (SubRgnDesc.max_item_num base) in
    let ring_buffer_base = base + mb_sub_region_header_sz in
    let to_end = sub32 item_ring_buffer_size item_write_index in
    let past_end = sub32 (u32 (item_write_index + item_num)) item_ring_buffer_size in
    let dest_addr = ring_buffer_base + u32 (item_write_index * item_size) in
    let copied : Memory =
      if ltb item_ring_buffer_size (u32 (item_write_index + item_num))
      then libmbcopy_bytes (libmbcopy_bytes m dest_addr source_item_buf (u32 (to_end * item_size)))
          ring_buffer_base (source_item_buf + u32 (to_end * item_size)) (u32 (past_end * item_size))
      else libmbcopy_bytes m dest_addr source_item_buf (u32 (item_num * item_size)) in
    if item_ring_buffer_size == 0 || item_size == 0 || leb item_ring_buffer_size item_write_index
    then m
    else set_reg copied (SubRgnDesc.item_in_index base)
        (u32 (item_write_index + item_num) % item_ring_buffer_size)

unfoldable pub read_item : Memory → ℕ → ℕ → ℕ → Memory
read_item m base destination_item_buf item_num =
    let item_size = get_reg m (SubRgnDesc.max_item_size base) in
    let item_read_index = get_reg m (SubRgnDesc.item_out_index base) in
    let item_ring_buffer_size = get_reg m (SubRgnDesc.max_item_num base) in
    let ring_buffer_base = base + mb_sub_region_header_sz in
    let to_end = sub32 item_ring_buffer_size item_read_index in
    let past_end = sub32 (u32 (item_read_index + item_num)) item_ring_buffer_size in
    let src_addr = ring_buffer_base + u32 (item_read_index * item_size) in
    let copied : Memory =
      if ltb item_ring_buffer_size (u32 (item_read_index + item_num))
      then libmbcopy_bytes
          (libmbcopy_bytes m destination_item_buf src_addr (u32 (to_end * item_size)))
          (destination_item_buf + u32 (to_end * item_size)) ring_buffer_base
          (u32 (past_end * item_size))
      else libmbcopy_bytes m destination_item_buf src_addr (u32 (item_num * item_size)) in
    if item_ring_buffer_size == 0 || item_size == 0 || leb item_ring_buffer_size item_read_index
    then m
    else set_reg copied (SubRgnDesc.item_out_index base)
        (u32 (item_read_index + item_num) % item_ring_buffer_size)

-- The pointer is NULL where the sum of the mailbox and an offset is 0.
unfoldable pub sanity_check : Memory → ℕ → Bool
sanity_check m base =
    let max_item_num = get_const_reg m (SubRgnDesc.max_item_num base) in
    let max_item_size = get_const_reg m (SubRgnDesc.max_item_size base) in
    let write_index = get_const_reg m (SubRgnDesc.item_in_index base) in
    let read_index = get_const_reg m (SubRgnDesc.item_out_index base) in
    if base == 0
    then false
    else if ltb mb_max_item_num max_item_num
        || ltb mb_max_size max_item_size
        || leb max_item_num write_index
        || leb max_item_num read_index
    then false
    else true

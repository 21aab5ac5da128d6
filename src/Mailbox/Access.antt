-- ===== src/Mailbox/Access.antt =====
-- The access functions of middleware/safemlib/src/rtss_mailbox_lib.c, which take the address of
-- the mailbox and the index of a sub-region. One that writes to memory returns the memory beside
-- its result.
pub mod Open
pub mod Send
pub mod Receive
pub mod Errors
pub mod Counts
pub mod Frame
pub mod Fifo
pub mod RoundTrip
pub mod Tests
use rtss_mailbox_umd.Base.{ℕ, ◌+◌, Bool, not, ◌&&◌, ◌||◌, ltb, leb, ◌==◌, if◌then◌else◌, min}
use rtss_mailbox_umd.Base.Int.{ℤ, pos, int32}
use rtss_mailbox_umd.Memory.{Memory, get_reg, get_const_reg, set_reg, libmbcopy_bytes}
use rtss_mailbox_umd.Mailbox.Layout.{
  mb_magic_number, mb_name_sz, mb_chan_rd_mode, mb_chan_wr_mode, mb_lib_owner, mb_lib_type,
  mb_e_success, mb_e_null_input, mb_e_invalid_index, mb_e_invalid_mailbox, mb_e_no_enough_buf,
  mb_e_corrupt_mailbox,
}
use rtss_mailbox_umd.Mailbox.Layout.MbDesc
use rtss_mailbox_umd.Mailbox.Layout.SubRgnDesc
use rtss_mailbox_umd.Mailbox.Ring.{valid_item, free_item, write_item, read_item, sanity_check}

-- the address of a sub-region
abbrev pub sub_region_base : Memory → ℕ → ℕ → ℕ
sub_region_base m mb i = mb + get_reg m (MbDesc.sub_region_start_offset mb i)

unfoldable pub validate : Memory → ℕ → ℤ
validate m mb =
    if mb == 0
    then mb_e_null_input
    else if not (get_const_reg m (MbDesc.magic mb) == mb_magic_number)
    then mb_e_invalid_mailbox
    else mb_e_success

unfoldable pub write : Memory → ℕ → ℕ → ℕ → ℕ → ℤ × Memory
write m mb source_item_buf item_num sub_region_index =
    let base = sub_region_base m mb sub_region_index in
    if mb == 0 || source_item_buf == 0
    then (mb_e_null_input, m)
    else if not (mb_magic_number == get_reg m (MbDesc.magic mb))
    then (mb_e_invalid_mailbox, m)
    else if not (ltb sub_region_index (get_reg m (MbDesc.num_of_sub_region mb)))
    then (mb_e_invalid_index, m)
    else if not (sanity_check m base)
    then (mb_e_corrupt_mailbox, m)
    else if not (leb item_num (free_item m base))
    then (mb_e_no_enough_buf, m)
    else (int32 item_num, write_item m base source_item_buf item_num)

unfoldable pub read : Memory → ℕ → ℕ → ℕ → ℕ → ℤ × Memory
read m mb destination_item_buf item_num sub_region_index =
    let base = sub_region_base m mb sub_region_index in
    let valid_items = valid_item m base in
    let read_num = if ltb valid_items item_num then valid_items else item_num in
    if mb == 0 || destination_item_buf == 0
    then (mb_e_null_input, m)
    else if not (mb_magic_number == get_reg m (MbDesc.magic mb))
    then (mb_e_invalid_mailbox, m)
    else if not (ltb sub_region_index (get_reg m (MbDesc.num_of_sub_region mb)))
    then (mb_e_invalid_index, m)
    else if not (sanity_check m base)
    then (mb_e_corrupt_mailbox, m)
    else if ltb 0 read_num
    then (int32 read_num, read_item m base destination_item_buf read_num)
    else (pos 0, m)

unfoldable pub get_free_item_num : Memory → ℕ → ℕ → ℤ
get_free_item_num m mb sub_region_index =
    let base = sub_region_base m mb sub_region_index in
    if mb == 0
    then mb_e_null_input
    else if not (mb_magic_number == get_const_reg m (MbDesc.magic mb))
    then mb_e_invalid_mailbox
    else if not (ltb sub_region_index (get_const_reg m (MbDesc.num_of_sub_region mb)))
    then mb_e_invalid_index
    else if not (sanity_check m base)
    then mb_e_corrupt_mailbox
    else int32 (free_item m base)

unfoldable pub get_valid_item_num : Memory → ℕ → ℕ → ℤ
get_valid_item_num m mb sub_region_index =
    let base = sub_region_base m mb sub_region_index in
    if mb == 0
    then mb_e_null_input
    else if not (mb_magic_number == get_const_reg m (MbDesc.magic mb))
    then mb_e_invalid_mailbox
    else if not (ltb sub_region_index (get_const_reg m (MbDesc.num_of_sub_region mb)))
    then mb_e_invalid_index
    else if not (sanity_check m base)
    then mb_e_corrupt_mailbox
    else int32 (valid_item m base)

-- The stores into the structure at `chaninfo`, one after the other. Its fields stand at the same
-- places as those of the sub-region descriptor.
fill_chan_info : Memory → ℕ → ℕ → Memory
fill_chan_info m base chaninfo =
    let m1 = set_reg m (SubRgnDesc.mode chaninfo) (get_const_reg m (SubRgnDesc.mode base)) in
    let m2 : Memory =
      if not (mb_lib_type == mb_lib_owner)
      then set_reg m1 (SubRgnDesc.mode chaninfo) (
          if mb_chan_rd_mode == get_const_reg m1 (SubRgnDesc.mode base)
          then mb_chan_wr_mode
          else mb_chan_rd_mode)
      else m1 in
    let m3 = libmbcopy_bytes m2 chaninfo base mb_name_sz in
    let m4 = set_reg m3 (SubRgnDesc.sender chaninfo) (get_const_reg m3 (SubRgnDesc.sender base)) in
    let m5 =
      set_reg m4 (SubRgnDesc.receiver chaninfo) (get_const_reg m4 (SubRgnDesc.receiver base)) in
    let m6 = set_reg m5 (SubRgnDesc.prot chaninfo) (get_const_reg m5 (SubRgnDesc.prot base)) in
    let m7 = set_reg m6 (SubRgnDesc.sig chaninfo) (get_const_reg m6 (SubRgnDesc.sig base)) in
    let m8 = set_reg m7 (SubRgnDesc.prio chaninfo) (get_const_reg m7 (SubRgnDesc.prio base)) in
    let m9 =
      set_reg m8 (SubRgnDesc.max_item_num chaninfo)
        (get_const_reg m8 (SubRgnDesc.max_item_num base)) in
    set_reg m9 (SubRgnDesc.max_item_size chaninfo)
      (get_const_reg m9 (SubRgnDesc.max_item_size base))

pub get_chan_info : Memory → ℕ → ℕ → ℕ → ℤ × Memory
unfolding fill_chan_info
get_chan_info m mb sub_region_index chaninfo =
    let base = sub_region_base m mb sub_region_index in
    if mb == 0 || chaninfo == 0
    then (mb_e_null_input, m)
    else if not (mb_magic_number == get_const_reg m (MbDesc.magic mb))
    then (mb_e_invalid_mailbox, m)
    else if not (ltb sub_region_index (get_const_reg m (MbDesc.num_of_sub_region mb)))
    then (mb_e_invalid_index, m)
    else if not (sanity_check m base)
    then (mb_e_corrupt_mailbox, m)
    else (pos 0, fill_chan_info m base chaninfo)

-- The sanity check has passed only if the address of the sub-region is not NULL, so the branch
-- for NULL behind it is the same as that for a check that fails.
pub chan_reset : Memory → ℕ → ℕ → ℤ × Memory
chan_reset m mb schan =
    let base = sub_region_base m mb schan in
    if mb == 0
    then (mb_e_null_input, m)
    else if not (mb_magic_number == get_const_reg m (MbDesc.magic mb))
    then (mb_e_invalid_mailbox, m)
    else if not (ltb schan (get_const_reg m (MbDesc.num_of_sub_region mb)))
    then (mb_e_invalid_index, m)
    else if not (sanity_check m base)
    then (mb_e_corrupt_mailbox, m)
    else if base == 0
    then (mb_e_corrupt_mailbox, m)
    else (
      pos 0,
      set_reg (set_reg m (SubRgnDesc.item_in_index base) 0) (SubRgnDesc.item_out_index base) 0,
    )

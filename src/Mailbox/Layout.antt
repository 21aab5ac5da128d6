-- ===== src/Mailbox/Layout.antt =====
-- The packed structures of middleware/safemlib/include/rtss_mailbox_lib.h: constants, and the
-- address of each field. All fields of a structure but its name are uint32_t.
pub mod MbDesc
pub mod SubRgnDesc
use rtss_mailbox_umd.Base.{ℕ}
use rtss_mailbox_umd.Base.Int.{ℤ, neg, pos}

abbrev pub mb_magic_number : ℕ
mb_magic_number = 0x4D4C3130

abbrev pub mb_name_sz : ℕ
mb_name_sz = 16

abbrev pub mb_max_sub_region_num : ℕ
mb_max_sub_region_num = 253

abbrev pub mb_max_item_num : ℕ
mb_max_item_num = 0x100000

abbrev pub mb_max_size : ℕ
mb_max_size = 0x800000

-- sizeof(mbsub_rgn_desc_t)
abbrev pub mb_sub_region_header_sz : ℕ
mb_sub_region_header_sz = 56

-- sizeof(mb_desc_t), with one mbsub_rgn_area_t inside
abbrev pub mb_header_size : ℕ
mb_header_size = 40

-- sizeof(mbsub_rgn_area_t)
abbrev pub area_size : ℕ
area_size = 8

abbrev pub mb_chan_rd_mode : ℕ
mb_chan_rd_mode = 0

abbrev pub mb_chan_wr_mode : ℕ
mb_chan_wr_mode = 1

abbrev pub mb_lib_owner : ℕ
mb_lib_owner = 1

-- MB_LIB_TYPE is MB_LIB_CLIENT
abbrev pub mb_lib_type : ℕ
mb_lib_type = 2

abbrev pub mb_e_success : ℤ
mb_e_success = pos 0

abbrev pub mb_e_null_input : ℤ
mb_e_null_input = neg 11

abbrev pub mb_e_invalid_cfg : ℤ
mb_e_invalid_cfg = neg 22

abbrev pub mb_e_invalid_index : ℤ
mb_e_invalid_index = neg 33

abbrev pub mb_e_invalid_mailbox : ℤ
mb_e_invalid_mailbox = neg 44

abbrev pub mb_e_no_enough_buf : ℤ
mb_e_no_enough_buf = neg 55

abbrev pub mb_e_corrupt_mailbox : ℤ
mb_e_corrupt_mailbox = neg 66

-- mbconfig_t. The name is the address of its 16 bytes.
pub record MbConfig : Type 0 where
  pub name : ℕ
  pub mb_size : ℕ
  pub mb_prio : ℕ
  pub num_sub_regions : ℕ
  pub mblocator : ℕ

-- mbsub_rgn_config_t
pub record SubRgnConfig : Type 0 where
  pub name : ℕ
  pub sender : ℕ
  pub receiver : ℕ
  pub prot : ℕ
  pub sig : ℕ
  pub mode : ℕ
  pub prio : ℕ
  pub start_addr_offset : ℕ
  pub end_addr_offset : ℕ
  pub item_max_num : ℕ
  pub item_max_size : ℕ

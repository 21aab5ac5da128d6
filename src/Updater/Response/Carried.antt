-- ===== src/Updater/Response/Carried.antt =====
-- What the responses carry, by the structures of apps/rtss-updater/lib/rtss_update/include/rtss_update_lib.h:
-- the members of the body of each, in order and with their sizes. The place of a member is the size of
-- what stands before it.
use rtss_mailbox_umd.Base.{ℕ, ◌+◌, ◌/◌, ◌%◌, ◌≡◌, ◌==◌, refl, if◌then◌else◌, List, [], ◌∷◌, arith}
use rtss_mailbox_umd.Updater.Response.{Handshake, dispatch}

-- The members that are kept, by a number each, and `other`.
abbrev other : ℕ
other = 0

abbrev primary_gpt_header_crc_status : ℕ
primary_gpt_header_crc_status = 1

abbrev primary_gpt_entry_crc_status : ℕ
primary_gpt_entry_crc_status = 2

abbrev primary_gpt_size : ℕ
primary_gpt_size = 3

abbrev secondary_gpt_header_crc_status : ℕ
secondary_gpt_header_crc_status = 4

abbrev secondary_gpt_entry_crc_status : ℕ
secondary_gpt_entry_crc_status = 5

abbrev secondary_gpt_size : ℕ
secondary_gpt_size = 6

abbrev primary_entry_crc : ℕ
primary_entry_crc = 7

abbrev secondary_entry_crc : ℕ
secondary_entry_crc = 8

abbrev num_images : ℕ
num_images = 9

abbrev buf_addr : ℕ
buf_addr = 10

abbrev buf_len : ℕ
buf_len = 11

abbrev buf_crc : ℕ
buf_crc = 12

abbrev state_bits : ℕ
state_bits = 13

abbrev partition_size : ℕ
partition_size = 14

-- A member and its size in bytes.
abbrev Layout : Type 0
Layout = List (ℕ × ℕ)

-- The six members that rtss_upd_check_gpt_msg_t and rtss_upd_get_boot_info_msg_t begin with.
abbrev tables : Layout → Layout
tables rest =
    (primary_gpt_header_crc_status, 4)
    ∷ (primary_gpt_entry_crc_status, 4)
    ∷ (primary_gpt_size, 4)
    ∷ (secondary_gpt_header_crc_status, 4)
    ∷ (secondary_gpt_entry_crc_status, 4)
    ∷ (secondary_gpt_size, 4)
    ∷ rest

-- rtss_upd_query_image_msg_t and rtss_upd_img_digest_msg_t
abbrev images : Layout → Layout
images rest = (num_images, 4) ∷ (buf_addr, 4) ∷ (buf_len, 4) ∷ (buf_crc, 4) ∷ rest

abbrev check_gpt : Layout
check_gpt = tables ((primary_entry_crc, 4) ∷ (secondary_entry_crc, 4) ∷ [])

abbrev boot_info : Layout
boot_info =
    tables (images ((primary_entry_crc, 4) ∷ (secondary_entry_crc, 4) ∷ (state_bits, 4) ∷ []))

-- The name, the partition and the table stand first.
abbrev read_img : Layout
read_img = (other, 32) ∷ (other, 4) ∷ (other, 4) ∷ (buf_addr, 4) ∷ (buf_len, 4) ∷ (buf_crc, 4) ∷ []

-- Three records of the map of sectors stand behind it.
abbrev meta_data_info : Layout
meta_data_info = (partition_size, 4) ∷ (other, 36) ∷ []

-- The word of a member, or a value where the layout does not have it; `at` is the place of the first.
member_from : Layout → ℕ → (ℕ → ℕ) → ℕ → ℕ → ℕ
member_from [] at w name old = old
member_from ((n, size) ∷ rest) at w name old =
    if n == name then w at else member_from rest (at + size) w name old

unfoldable pub member : Layout → (ℕ → ℕ) → ℕ → ℕ → ℕ
unfolding member_from
member layout w name old = member_from layout 0 w name old

-- What the handshake is behind a response, from the words `w` of its body.
abbrev after_check_gpt : (ℕ → ℕ) → Handshake → Handshake
after_check_gpt w h = record h {
  chk_gpt_prim_size = member check_gpt w primary_gpt_size 0;
  chk_gpt_sec_size = member check_gpt w secondary_gpt_size 0;
  primary_gpt_partition_entry_crc = member check_gpt w primary_entry_crc 0;
  secondary_gpt_partition_entry_crc = member check_gpt w secondary_entry_crc 0;
}

abbrev after_read_img : (ℕ → ℕ) → Handshake → Handshake
after_read_img w h = record h {
  rbtflsbuf_addr = member read_img w buf_addr 0;
  rbtflsbuf_len = member read_img w buf_len 0;
  rbtflsbuf_crc = member read_img w buf_crc 0;
}

-- The state takes seven bits of its word, and the swapped GUID the one above them.
abbrev after_boot_info : (ℕ → ℕ) → Handshake → Handshake
after_boot_info w h = record h {
  num_images_boot = member boot_info w num_images 0;
  rtss_addr = member boot_info w buf_addr 0;
  prim_gpt_header_crc_status = member boot_info w primary_gpt_header_crc_status 0;
  prim_gpt_entry_crc_status = member boot_info w primary_gpt_entry_crc_status 0;
  sec_gpt_header_crc_status = member boot_info w secondary_gpt_header_crc_status 0;
  sec_gpt_entry_crc_status = member boot_info w secondary_gpt_entry_crc_status 0;
  primary_gpt_partition_entry_crc = member boot_info w primary_entry_crc 0;
  secondary_gpt_partition_entry_crc = member boot_info w secondary_entry_crc 0;
  logic_guid_a_swapped = member boot_info w state_bits 0 / 128 % 2;
}

-- By the identifier: CHECK_GPT, QUERY_IMAGE, READ_IMAGE, GET_BOOTINFO, the information on the
-- metadata partition, and the digests of the images.
unfoldable pub carried : (ℕ → ℕ) → ℕ → Handshake → Handshake
unfolding member
carried w id h =
    if id == 1
    then after_check_gpt w h
    else if id == 6
    then record h { num_images_boot = member (images []) w num_images 0 }
    else if id == 7
    then after_read_img w h
    else if id == 11
    then after_boot_info w h
    else if id == 19
    then record h { metadatapartitionsz = member meta_data_info w partition_size 0 }
    else if id == 22
    then record h { num_images_digest = member (images []) w num_images 0 }
    else h

-- The handler stores what the structures say.
pub dispatch-carried : (w : ℕ → ℕ) (id : ℕ) (h : Handshake) → dispatch w id h ≡ carried w id h
unfolding dispatch carried
dispatch-carried w id h = refl

-- No response changes the status that has been noted.
pub carried-resp_status :
    (w : ℕ → ℕ) (id : ℕ) (h : Handshake) → (carried w id h).resp_status ≡ h.resp_status
unfolding carried
carried-resp_status w id h = ground arith

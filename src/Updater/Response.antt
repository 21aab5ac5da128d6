-- ===== src/Updater/Response.antt =====
-- The handler of a response in apps/rtss-updater/demo/src/rtss_updater.c,
-- `rtss_updater_cbk_notify_handler`, and what it keeps, rtss_updater_handshake_t of rtss_updater.h. The
-- arrays of that structure and what `modifygpt` allocates stand in memory. Logging is left out.
pub mod Dispatch
pub mod Carried
pub mod Accepted
use rtss_mailbox_umd.Base.{
  ℕ, ◌+◌, ◌*◌, ◌/◌, ◌%◌, not, ◌==◌, if◌then◌else◌, Option, none, some, List,
}
use rtss_mailbox_umd.Memory.{Memory, get_reg, set_reg}
use rtss_mailbox_umd.Api.Handle.{Uapi, Handle}
use rtss_mailbox_umd.Api.Transfer.{Wake}
use rtss_mailbox_umd.Update.Crc.{Buffer, e_ok, verify_crc32}
use rtss_mailbox_umd.Update.Message.{msg_size, header_crc, msg_id, status, body, set_run, read_msg}
use rtss_mailbox_umd.Updater.Boot.{BootReport}

pub record Handshake : Type 0 where
  pub msg_id : ℕ
  pub resp_status : ℕ
  pub num_images_boot : ℕ
  pub num_images_digest : ℕ
  pub chk_gpt_prim_size : ℕ
  pub chk_gpt_sec_size : ℕ
  pub rtss_addr : ℕ
  pub prim_gpt_header_crc_status : ℕ
  pub prim_gpt_entry_crc_status : ℕ
  pub sec_gpt_header_crc_status : ℕ
  pub sec_gpt_entry_crc_status : ℕ
  pub primary_gpt_partition_entry_crc : ℕ
  pub secondary_gpt_partition_entry_crc : ℕ
  pub logic_guid_a_swapped : ℕ
  pub rbtflsbuf_addr : ℕ
  pub rbtflsbuf_len : ℕ
  pub rbtflsbuf_crc : ℕ
  pub boot_partition_pass : ℕ
  pub boot_partition_fail : ℕ
  pub metadatapartitionsz : ℕ

-- As the static variable starts.
abbrev pub rtss_updater_hndshk : Handshake
rtss_updater_hndshk = record {
  msg_id = 0;
  resp_status = 0;
  num_images_boot = 0;
  num_images_digest = 0;
  chk_gpt_prim_size = 0;
  chk_gpt_sec_size = 0;
  rtss_addr = 0;
  prim_gpt_header_crc_status = 0;
  prim_gpt_entry_crc_status = 0;
  sec_gpt_header_crc_status = 0;
  sec_gpt_entry_crc_status = 0;
  primary_gpt_partition_entry_crc = 0;
  secondary_gpt_partition_entry_crc = 0;
  logic_guid_a_swapped = 0;
  rbtflsbuf_addr = 0;
  rbtflsbuf_len = 0;
  rbtflsbuf_crc = 0;
  boot_partition_pass = 0;
  boot_partition_fail = 0;
  metadatapartitionsz = 0;
}

-- RTSS_UPD_MSG_CHECK_GPT
abbrev check_gpt_stored : (ℕ → ℕ) → Handshake → Handshake
check_gpt_stored w h = record h {
  chk_gpt_prim_size = w 8;
  chk_gpt_sec_size = w 20;
  primary_gpt_partition_entry_crc = w 24;
  secondary_gpt_partition_entry_crc = w 28;
}

-- RTSS_UPD_MSG_READ_IMAGE; the words stand behind the name and two more.
abbrev read_image_stored : (ℕ → ℕ) → Handshake → Handshake
read_image_stored w h = record h {
  rbtflsbuf_addr = w 40;
  rbtflsbuf_len = w 44;
  rbtflsbuf_crc = w 48;
}

-- RTSS_UPD_MSG_GET_BOOTINFO; `logicGuidASwapped` is bit 7 of the last word.
abbrev bootinfo_stored : (ℕ → ℕ) → Handshake → Handshake
bootinfo_stored w h = record h {
  num_images_boot = w 24;
  rtss_addr = w 28;
  prim_gpt_header_crc_status = w 0;
  prim_gpt_entry_crc_status = w 4;
  sec_gpt_header_crc_status = w 12;
  sec_gpt_entry_crc_status = w 16;
  primary_gpt_partition_entry_crc = w 40;
  secondary_gpt_partition_entry_crc = w 44;
  logic_guid_a_swapped = w 48 / 128 % 2;
}

-- The switch. `w k` is the word at byte `k` of the union; the other identifiers store nothing.
unfoldable pub dispatch : (ℕ → ℕ) → ℕ → Handshake → Handshake
dispatch w id h =
    if id == 1
    then check_gpt_stored w h
    else if id == 6
    then record h { num_images_boot = w 0 }
    else if id == 7
    then read_image_stored w h
    else if id == 11
    then bootinfo_stored w h
    else if id == 19
    then record h { metadatapartitionsz = w 0 }
    else if id == 22
    then record h { num_images_digest = w 0 }
    else h

-- the union of the message at an address
abbrev pub union_at : Memory → ℕ → ℕ → ℕ
union_at m msg k = get_reg m (body msg + k)

module _ (rx_msg : ℕ) where
  -- The status and the identifier are stored before the checksum is looked at.
  abbrev pub noted : Memory → Handshake → Handshake
  noted m h = record h {
    resp_status = get_reg m (status rx_msg);
    msg_id = get_reg m (msg_id rx_msg);
  }

  -- From the message in `RxMsg` on.
  unfoldable pub check_response : Memory → Handshake → Memory × Handshake
  unfolding dispatch
  check_response m h =
      let bck_crc = get_reg m (header_crc rx_msg) in
      let m' = set_reg m (header_crc rx_msg) 0 in
      let rx : Buffer = λ k. m' (rx_msg + k) in
      if not (verify_crc32 bck_crc (some rx) msg_size == e_ok)
      then (m', noted m h)
      else (m', dispatch (union_at m' rx_msg) (get_reg m' (msg_id rx_msg)) (noted m h))

  unfoldable pub response_read : Handshake → Option (ℕ × Memory) → Option (Memory × Handshake)
  response_read h none = none
  response_read h (some (code, m)) =
      if not (code == e_ok) then some (m, h) else some (check_response m h)

  -- `none` where the thread still waits for the response.
  unfoldable pub cbk_notify_handler :
      Uapi → Memory → Option Handle → Handshake → List Wake → Option (Memory × Handshake)
  unfolding response_read
  cbk_notify_handler api m rx h wakes =
      response_read h (read_msg api (set_run m rx_msg 0 msg_size) rx_msg rx wakes)

-- What came of the reading of a response: nothing could be read, or a message with a checksum that is
-- not, or is, the one of its bytes. The handler returns nothing of this.
pub data Heard : Type 0 where
  unread damaged intact : Heard

unfoldable pub heard : ℕ → Option (ℕ × Memory) → Heard
heard rx_msg none = unread
heard rx_msg (some (code, m)) =
    let rx : Buffer = λ k. set_reg m (header_crc rx_msg) 0 (rx_msg + k) in
    if not (code == e_ok)
    then unread
    else if verify_crc32 (get_reg m (header_crc rx_msg)) (some rx) msg_size == e_ok
    then intact
    else damaged

-- What the judgement of a boot reads; the entries of updImgEntryType stand at `entries`, the
-- partition behind the name, then the table, two sizes, and whether the two tables agree.
abbrev pub image_entry : ℕ → ℕ → ℕ
image_entry entries k = entries + 52 * k

abbrev pub boot_report : Memory → ℕ → Handshake → BootReport
boot_report m entries h = record {
  num_images_boot = h.num_images_boot;
  prim_gpt_header_crc_status = h.prim_gpt_header_crc_status;
  prim_gpt_entry_crc_status = h.prim_gpt_entry_crc_status;
  sec_gpt_header_crc_status = h.sec_gpt_header_crc_status;
  sec_gpt_entry_crc_status = h.sec_gpt_entry_crc_status;
  boot_partition_pass = h.boot_partition_pass;
  boot_partition_fail = h.boot_partition_fail;
  boot_partition = λ k. get_reg m (image_entry entries k + 32);
  boot_gpt_id = λ k. get_reg m (image_entry entries k + 36);
  tables_matching = λ k. get_reg m (image_entry entries k + 48);
}

-- The judgement changes the two counters.
abbrev pub with_counts : BootReport → Handshake → Handshake
with_counts r h = record h {
  boot_partition_pass = r.boot_partition_pass;
  boot_partition_fail = r.boot_partition_fail;
}

-- ===== src/Updater/Request.antt =====
-- All the commands of apps/rtss-updater/demo/src/rtss_updater_cmd.c that compose a message and send
-- it, by the names of their messages in rtss_update_lib.h, and when they do. RTSS_UPD_MSG_WRITE_GPT,
-- whose command fills the shared buffer before, is not among them.
pub mod Body
pub mod Settle
use rtss_mailbox_umd.Base.{
  ℕ, ◌*◌, Bool, true, false, not, ◌&&◌, ◌||◌, ◌==◌, u32, Option, none, some, List,
}
use rtss_mailbox_umd.Memory.{Memory}
use rtss_mailbox_umd.Api.Handle.{Uapi, Handle, SysRet}
use rtss_mailbox_umd.Updater.Buffers.{update_gpt_entry_size}
use rtss_mailbox_umd.Updater.Command.{Outcome}
use rtss_mailbox_umd.Updater.Gpt.{chkgpt, fixgpt, readgpt, updategpt}
use rtss_mailbox_umd.Updater.Image.{
  entries_len, flashimg, readimg, bootimg, bootcontinue, injectfault, queryimage, get_bl_info,
  get_image_digest,
}
use rtss_mailbox_umd.Updater.Metadata.{
  get_metadata, set_metadata, update_arb, update_mrc, read_metadata, write_metadata, erase_metadata,
  get_metadata_info, update_ota_done_state, redundancy_established,
}

pub data Request : Type 0 where
  check_gpt get_ota_metadatainfo boot_cont : Request
  fix_gpt : (gpt_id s_va buf_len fixtype : ℕ) → Request
  read_gpt : (gpt_id s_va buf_len va : ℕ) → Request
  update_gpt : (num_images gpt s_va buf_len buf_crc va : ℕ) → Request
  query_images : (num_images buf_len buf_crc s_va va : ℕ) → Request
  read_image : Option (List ℕ) → (partition gpt s_va buf_len : ℕ) → Request
  flash_image : Option (List ℕ) → (gpt partition s_va buf_len buf_crc flashtype va : ℕ) → Request
  boot_image : Option (List ℕ) → (gpt partition s_va buf_len buf_crc va : ℕ) → Request
  get_bootinfo : (num_images buf_len buf_crc s_va va : ℕ) → Request
  image_digest : (num_images buf_len buf_crc s_va va : ℕ) → Request
  get_ota_metadata : (s_va buf_len : ℕ) → Request
  set_ota_metadata : (s_va buf_len buf_crc va : ℕ) → Request
  arb : (d1 d2 d3 d4 : ℕ) → Request
  mrc : (d1 d2 d3 d4 : ℕ) → Request
  read_ota_metadata : (s_va buf_len offset size : ℕ) → Request
  write_ota_metadata : (s_va buf_len buf_crc offset size va : ℕ) → Request
  erase_ota_metadata : (start_block block_cnt : ℕ) → Request
  ota_done : (d1 d2 d3 d4 : ℕ) → Request
  redundancy : (d1 d2 d3 d4 : ℕ) → Request
  test_error_injection : (enable trigger : ℕ) → Request

-- the value of RTSS_UPD_MSG_<COMMAND>
unfoldable pub id_of : Request → ℕ
id_of check_gpt = 1
id_of (read_gpt _ _ _ _) = 2
id_of (fix_gpt _ _ _ _) = 4
id_of (update_gpt _ _ _ _ _ _) = 5
id_of (query_images _ _ _ _ _) = 6
id_of (read_image _ _ _ _ _) = 7
id_of (flash_image _ _ _ _ _ _ _ _) = 8
id_of (boot_image _ _ _ _ _ _ _) = 9
id_of boot_cont = 10
id_of (get_bootinfo _ _ _ _ _) = 11
id_of (get_ota_metadata _ _) = 12
id_of (set_ota_metadata _ _ _ _) = 13
id_of (arb _ _ _ _) = 14
id_of (mrc _ _ _ _) = 15
id_of (read_ota_metadata _ _ _ _) = 16
id_of (write_ota_metadata _ _ _ _ _ _) = 17
id_of (erase_ota_metadata _ _) = 18
id_of get_ota_metadatainfo = 19
id_of (ota_done _ _ _ _) = 20
id_of (redundancy _ _ _ _) = 21
id_of (image_digest _ _ _ _ _) = 22
id_of (test_error_injection _ _) = 255

abbrev given : Option (List ℕ) → Bool
given none = false
given (some name) = true

-- There is a buffer, and a checksum of it is given or can be computed.
abbrev pub buffer_ok : ℕ → ℕ → ℕ → Bool
buffer_ok va len buf_crc = not (va == 0) && (not (buf_crc == 0) || not (len == 0))

-- What the arguments must be for the message to be sent.
unfoldable pub sendable : Request → Bool
sendable (read_gpt _ _ len va) = buffer_ok va len 0
sendable (update_gpt n _ _ _ buf_crc va) = buffer_ok va (u32 (n * update_gpt_entry_size)) buf_crc
sendable (query_images n len buf_crc _ va) = buffer_ok va (entries_len n len) buf_crc
sendable (read_image name _ _ _ _) = given name
sendable (flash_image name _ _ _ len buf_crc _ va) = given name && buffer_ok va len buf_crc
sendable (boot_image name _ _ _ len buf_crc va) = given name && buffer_ok va len buf_crc
sendable (get_bootinfo n len buf_crc _ va) = buffer_ok va (entries_len n len) buf_crc
sendable (image_digest _ len buf_crc _ va) = buffer_ok va len buf_crc
sendable (set_ota_metadata _ len buf_crc va) = buffer_ok va len buf_crc
sendable (write_ota_metadata _ len buf_crc _ _ va) = buffer_ok va len buf_crc
sendable _ = true

module _ (api : Uapi) (tx : Option Handle) (sys : SysRet) (msg : ℕ) where
  pub execute : Request → Memory → Outcome
  execute check_gpt m = chkgpt api tx sys msg m
  execute get_ota_metadatainfo m = get_metadata_info api tx sys msg m
  execute boot_cont m = bootcontinue api tx sys msg m
  execute (fix_gpt g s l f) m = fixgpt api tx sys msg m g s l f
  execute (read_gpt g s l va) m = readgpt api tx sys msg m g s l va
  execute (update_gpt n g s l c va) m = updategpt api tx sys msg m n g s l c va
  execute (query_images n l c s va) m = queryimage api tx sys msg m n l c s va
  execute (read_image name p g s l) m = readimg api tx sys msg m name p g s l
  execute (flash_image name g p s l c f va) m = flashimg api tx sys msg m name g p s l c f va
  execute (boot_image name g p s l c va) m = bootimg api tx sys msg m name g p s l c va
  execute (get_bootinfo n l c s va) m = get_bl_info api tx sys msg m n l c s va
  execute (image_digest n l c s va) m = get_image_digest api tx sys msg m n l c s va
  execute (get_ota_metadata s l) m = get_metadata api tx sys msg m s l
  execute (set_ota_metadata s l c va) m = set_metadata api tx sys msg m s l c va
  execute (arb a b c d) m = update_arb api tx sys msg m a b c d
  execute (mrc a b c d) m = update_mrc api tx sys msg m a b c d
  execute (read_ota_metadata s l o n) m = read_metadata api tx sys msg m s l o n
  execute (write_ota_metadata s l c o n va) m = write_metadata api tx sys msg m s l c o n va
  execute (erase_ota_metadata a n) m = erase_metadata api tx sys msg m a n
  execute (ota_done a b c d) m = update_ota_done_state api tx sys msg m a b c d
  execute (redundancy a b c d) m = redundancy_established api tx sys msg m a b c d
  execute (test_error_injection e t) m = injectfault api tx sys msg m e t

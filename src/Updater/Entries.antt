-- ===== src/Updater/Entries.antt =====
-- The entries that the RTSS leaves in the shared buffer, as apps/rtss-updater/demo/src/rtss_updater_cmd.c
-- reads them: `rtss_updater_get_bl_info_context` and `rtss_updater_read_img_digest_context`. The two
-- arrays stand in memory like the buffer; what stands behind the array is memory too.
pub mod Copied
pub mod Bounded
use rtss_mailbox_umd.Base.{ℕ, zero, suc, ◌+◌, ◌^◌, ◌||◌, ltb, ◌==◌, if◌then◌else◌, min}
use rtss_mailbox_umd.Memory.{Memory, get_reg, set_reg}
use rtss_mailbox_umd.Update.Message.{set_run}
use rtss_mailbox_umd.Updater.Buffers.{
  mcpy, image_entry_size, digest_entry_size, img_name_len, digest_max_len,
}
use rtss_mailbox_umd.Updater.Command.{exit_success, exit_failure}
use rtss_mailbox_umd.Updater.Config.{max_images}

-- `to->member = from->member` for a uint32_t at offset `k`
unfoldable pub copy_word : Memory → ℕ → ℕ → ℕ → Memory
copy_word m to from k = set_reg m (to + k) (get_reg m (from + k))

-- `memset` and `rtss_updater_mcpy` of a name
unfoldable pub copy_name : Memory → ℕ → ℕ → Memory
copy_name m to from = (mcpy (set_run m to 0 img_name_len) to img_name_len from img_name_len).1

-- One round: the name, then bootGptId, bootPartition, the two sizes and the last word.
pub copy_image_entry : Memory → ℕ → ℕ → Memory
unfolding copy_word copy_name
copy_image_entry m to from =
    let m1 = copy_name m to from in
    let m2 = copy_word (copy_word m1 to from 36) to from 32 in
    copy_word (copy_word (copy_word m2 to from 40) to from 44) to from 48

pub bl_info_loop : ℕ → Memory → ℕ → ℕ → Memory
unfolding copy_image_entry
bl_info_loop zero m to from = m
bl_info_loop (suc left) m to from =
    bl_info_loop left (copy_image_entry m to from) (to + image_entry_size) (from + image_entry_size)

unfoldable pub get_bl_info_context : Memory → ℕ → ℕ → ℕ → ℕ × Memory
unfolding bl_info_loop
get_bl_info_context m array va num =
    if array == 0 || va == 0 || num == 0
    then (exit_failure, m)
    else (exit_success, bl_info_loop num m array va)

-- The name and the digest are cleared, then the name and the three words behind it are copied.
pub copy_digest_head : Memory → ℕ → ℕ → Memory
unfolding copy_word
copy_digest_head m to from =
    let m1 = set_run (set_run m to 0 img_name_len) (to + 44) 0 digest_max_len in
    let m2 = (mcpy m1 to img_name_len from img_name_len).1 in
    copy_word (copy_word (copy_word m2 to from 32) to from 36) to from 40

pub digest_loop : ℕ → Memory → ℕ → ℕ → ℕ × Memory
unfolding copy_digest_head
digest_loop zero m to from = (exit_success, m)
digest_loop (suc left) m to from =
    let m' = copy_digest_head m to from in
    let len = get_reg m' (from + 40) in
    let rest =
      digest_loop left (mcpy m' (to + 44) digest_max_len (from + 44) len).1 (to + digest_entry_size)
        (from + digest_entry_size) in
    if ltb digest_max_len len then (exit_failure, m') else rest

-- (i < (int)noofimages) && (i < (int)RTSS_UPDATER_CFG_MAX_IMAGES)
abbrev pub digest_rounds : ℕ → ℕ
digest_rounds num = if ltb num (2 ^ 31) then min num max_images else 0

pub read_img_digest_context : Memory → ℕ → ℕ → ℕ → ℕ × Memory
unfolding digest_loop
read_img_digest_context m array va num =
    if array == 0 || va == 0 then (exit_failure, m) else digest_loop (digest_rounds num) m array va

-- ===== src/Updater/Boot.antt =====
-- The judgement of the boot information that the RTSS reports, in
-- apps/rtss-updater/demo/src/rtss_updater.c: `rtss_updater_get_bl_partition_status` and
-- `rtss_updater_validate_boot_info`, which its users call one behind the other.
pub mod Judge
use rtss_mailbox_umd.Base.{
  ℕ, zero, suc, ◌+◌, Bool, not, ◌&&◌, ltb, ◌==◌, if◌then◌else◌, u32, Option, none, some,
}
use rtss_mailbox_umd.Updater.Command.{exit_success, exit_failure}

-- The fields of rtss_updater_handshake_t that the two read. `boot_partition k` is that of entry `k`
-- of updImgEntryType, and whatever memory holds behind its five entries. The two functions do not
-- read the last two, the table that an image was booted from and whether both tables agree on it.
pub record BootReport : Type 0 where
  pub num_images_boot : ℕ
  pub prim_gpt_header_crc_status : ℕ
  pub prim_gpt_entry_crc_status : ℕ
  pub sec_gpt_header_crc_status : ℕ
  pub sec_gpt_entry_crc_status : ℕ
  pub boot_partition_pass : ℕ
  pub boot_partition_fail : ℕ
  pub boot_partition : ℕ → ℕ
  pub boot_gpt_id : ℕ → ℕ
  pub tables_matching : ℕ → ℕ

abbrev pub passed : BootReport → BootReport
passed r = record r { boot_partition_pass = u32 (r.boot_partition_pass + 1) }

abbrev pub booted_from_b : BootReport → BootReport
booted_from_b r = record r { boot_partition_fail = u32 (r.boot_partition_fail + 1) }

-- The loop, with `left` images to go from image `k` on.
pub partition_loop : ℕ → ℕ → BootReport → ℕ × BootReport
partition_loop zero k r = (exit_success, r)
partition_loop (suc left) k r =
    let pass = partition_loop left (k + 1) (passed r) in
    let fail = partition_loop left (k + 1) (booted_from_b r) in
    if r.boot_partition k == 0
    then pass
    else if r.boot_partition k == 1
    then fail
    else if r.boot_partition k == 2
    then pass
    else (exit_failure, r)

pub get_bl_partition_status : Option BootReport → ℕ × Option BootReport
unfolding partition_loop
get_bl_partition_status none = (exit_failure, none)
get_bl_partition_status (some r) =
    let (code, r') = partition_loop r.num_images_boot 0 r in
    if r.num_images_boot == 0 then (exit_failure, some r) else (code, some r')

pub validate_boot_info : Option BootReport → ℕ
validate_boot_info none = exit_failure
validate_boot_info (some r) =
    if r.prim_gpt_entry_crc_status == 1
      && r.prim_gpt_header_crc_status == 1
      && r.sec_gpt_entry_crc_status == 1
      && r.sec_gpt_header_crc_status == 1
    then (if ltb 0 r.boot_partition_fail
        then exit_failure
        else if r.num_images_boot == r.boot_partition_pass
        then exit_success
        else exit_failure)
    else exit_failure

-- The two steps as the preparation of an update takes them.
unfoldable pub judge_boot : BootReport → ℕ
unfolding get_bl_partition_status validate_boot_info
judge_boot r =
    let (code, r') = get_bl_partition_status (some r) in
    if code == exit_success then validate_boot_info r' else exit_failure

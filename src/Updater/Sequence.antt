-- ===== src/Updater/Sequence.antt =====
-- The command sequences of apps/rtss-updater/demo/src/rtss_updater.c: before and after the reboot of an
-- update, for the flasher, and for a new partition table. A NULL path or name does not occur here,
-- since all of them are members of static structures. The timers are left out.
pub mod Order
pub mod PostbootOrder
pub mod DevprogOrder
pub mod Tests
use rtss_mailbox_umd.Base.{
  ℕ, zero, suc, ◌+◌, ◌*◌, Bool, true, false, not, ◌||◌, ◌==◌, if◌then◌else◌, u32, Option, none,
  some, List, [], ◌∷◌, ◌++◌, length,
}
use rtss_mailbox_umd.Memory.{Memory, get_reg}
use rtss_mailbox_umd.Updater.Buffers.{
  alignnum, populate_bl_info_context, populate_gpt_update_context, image_entry_size,
  update_gpt_entry_size,
}
use rtss_mailbox_umd.Updater.Config.{Entry, get_img_parse_info, get_img_info_default}
use rtss_mailbox_umd.Updater.Entries.{get_bl_info_context}
use rtss_mailbox_umd.Updater.Request.{
  check_gpt, get_ota_metadatainfo, fix_gpt, update_gpt, read_image, flash_image, get_bootinfo,
  get_ota_metadata, set_ota_metadata, arb, ota_done, redundancy,
}
use rtss_mailbox_umd.Updater.Response.{image_entry}
use rtss_mailbox_umd.Updater.Session.{
  Command, request, Setup, State, Action, Proc, pure, gets, calls, exit_when, ◌>>=◌, ◌>>◌, ask,
  judge, load, reboot, clear_buffer,
}

-- RTSS_UPDATER_CFG_UPDATEGPT_WORKBUF_SZ
abbrev pub workbuf_sz : ℕ
workbuf_sz = 0x6000

-- RTSS_UPDATER_ERROR
abbrev pub updater_error : ℕ
updater_error = 101

abbrev pub names_of : List Entry → List (List ℕ)
names_of [] = []
names_of (e ∷ es) = e.name ∷ names_of es

-- the buffer for the metadata
abbrev pub metadata_len : State → ℕ
metadata_len s = alignnum 1 16 s.hndshk.metadatapartitionsz

-- The banks from `startBank` up to `partition`.
abbrev pub banks_of : ℕ → Option (List ℕ)
banks_of partition =
    if partition == updater_error
    then some (0 ∷ 1 ∷ [])
    else if partition == 0
    then some (0 ∷ [])
    else if partition == 1
    then some (1 ∷ [])
    else none

abbrev is_empty : List ℕ → Bool
is_empty [] = true
is_empty (x ∷ xs) = false

-- A single image by its path, or the images of a configuration file. `none` is a file that is not
-- accepted, and leaves the sequence before the first bank.
abbrev pub chosen_images :
    ℕ → (path identifier : List ℕ) → Option (List Entry) → Option (List Entry)
chosen_images skip_config_file path identifier parsed =
    if skip_config_file == 1
    then if is_empty path || is_empty identifier
      then none
      else some (record { name = identifier; path = path } ∷ [])
    else parsed

module _ (c : Setup) where
  open c use {p_va, s_va, entries}

  -- From the entries for the images to the judgement of the report about them.
  unfoldable pub check_boot : List (List ℕ) → Proc
  check_boot names = do
    calls (λ m. populate_bl_info_context (some names) m p_va)
    ask c
        (request (get_bootinfo (length names) (u32 (length names * image_entry_size)) 0 s_va p_va))
    num ← gets (λ s. s.hndshk.num_images_boot)
    calls (λ m. get_bl_info_context m entries p_va num)
    judge c

  -- The checks of the tables and the metadata that come before a boot report.
  unfoldable pub prepare : Proc
  prepare = do
    ask c (request check_gpt)
    ask c (request get_ota_metadatainfo)
    len ← gets metadata_len
    clear_buffer c len
    ask c (request (get_ota_metadata s_va len))

  -- An image from its file to a partition of the primary table.
  unfoldable pub flash : (partition flashtype : ℕ) → (name path : List ℕ) → Proc
  flash partition flashtype name path = do
    len ← load c path
    ask c (request (flash_image (some name) 0 partition s_va len 0 flashtype p_va))

  unfoldable pub flash_all : (partition flashtype : ℕ) → List Entry → Proc
  unfolding flash
  flash_all partition flashtype [] = pure tt
  flash_all partition flashtype (e ∷ es) = do
    flash partition flashtype e.name e.path
    flash_all partition flashtype es

  unfoldable pub reboot_unless : ℕ → Proc
  reboot_unless rstskip = if rstskip == 0 then reboot c else pure tt

  -- The images go to partition B.
  unfoldable pub preboot_demosequence : List Entry → ℕ → Proc
  unfolding check_boot prepare flash_all reboot_unless
  preboot_demosequence images rstskip = do
    prepare
    check_boot (names_of images)
    flash_all 1 2 images
    calls (λ m. populate_gpt_update_context (some (names_of images)) m p_va)
    ask c (
        request (
          update_gpt (length images) 0 s_va
            (u32 (u32 (length images * update_gpt_entry_size) + workbuf_sz)) 0 p_va))
    reboot_unless rstskip

  -- Image `k` is read from partition A into the shared buffer, and flashed from there to
  -- partition B.
  unfoldable pub copy_image : ℕ → List ℕ → Proc
  copy_image k name = do
    len ← gets (λ s. get_reg s.mem (image_entry entries k + 40))
    ask c (request (read_image (some name) 0 0 s_va len))
    h ← gets State.hndshk
    ask c (
        request
          (flash_image (some name) 0 1 h.rbtflsbuf_addr h.rbtflsbuf_len h.rbtflsbuf_crc 1 p_va))

  unfoldable pub copy_all : ℕ → List (List ℕ) → Proc
  unfolding copy_image
  copy_all k [] = pure tt
  copy_all k (name ∷ names) = do copy_image k name; copy_all (k + 1) names

  -- Behind the images: the other table, and the state of the update.
  unfoldable pub settle : Proc
  settle = do
    size ← gets (λ s. alignnum 2 16 s.hndshk.chk_gpt_prim_size)
    ask c (request (fix_gpt 0 s_va size 1))
    ask c (request (redundancy 0 0 0 0))
    ask c (request get_ota_metadatainfo)
    len ← gets metadata_len
    ask c (request (set_ota_metadata s_va len 0 p_va))
    ask c (request (arb 0 0 0 0))

  unfoldable pub restore : List (List ℕ) → Proc
  unfolding check_boot copy_all settle
  restore names = do check_boot names; ask c (request check_gpt); copy_all 0 names; settle

  unfoldable pub postboot_demosequence : List (List ℕ) → ℕ → Proc
  unfolding restore
  postboot_demosequence names ackstate = do
    ask c (request (ota_done 0 0 0 0))
    (if ackstate == 1 then pure tt else restore names)

  unfoldable pub flash_banks : List ℕ → List Entry → Proc
  unfolding flash_all
  flash_banks [] images = pure tt
  flash_banks (bank ∷ banks) images = do flash_all bank 1 images; flash_banks banks images

  abbrev flash_chosen : Option (List ℕ) → Option (List Entry) → Proc
  flash_chosen none images = exit_when true
  flash_chosen (some banks) none = exit_when true
  flash_chosen (some banks) (some images) = flash_banks banks images

  unfoldable pub devprog_flasher : (banks : Option (List ℕ)) → (images : Option (List Entry)) → Proc
  unfolding check_boot prepare flash_banks
  devprog_flasher banks images = do
    prepare
    check_boot get_img_info_default
    flash_chosen banks images

-- ===== src/Updater/Image.antt =====
-- The commands of apps/rtss-updater/demo/src/rtss_updater_cmd.c on images. The name of an image is an
-- `Option`, `none` for NULL. A command that returns before it computes a checksum leaves nothing of
-- the local message behind, and the memory is given back as it was.
use rtss_mailbox_umd.Base.{
  ℕ, ◌+◌, ◌*◌, not, ◌&&◌, ◌==◌, if◌then◌else◌, u32, Option, none, some, List, [], ◌∷◌,
}
use rtss_mailbox_umd.Memory.{Memory}
use rtss_mailbox_umd.Api.Handle.{Uapi, Handle, SysRet}
use rtss_mailbox_umd.Update.Message.{body, start_msg, set_words, set_bytes}
use rtss_mailbox_umd.Updater.Buffers.{put_name, img_name_len, image_entry_size}
use rtss_mailbox_umd.Updater.Command.{Outcome, exit_failure, transmit, transmit_collecting}

-- the length of a list of entries, unless the caller gives another one that is not 0
abbrev pub entries_len : ℕ → ℕ → ℕ
entries_len num_images buf_len =
    let expected = u32 (num_images * image_entry_size) in
    if not (buf_len == 0) && not (buf_len == expected) then buf_len else expected

module _ (api : Uapi) (tx : Option Handle) (sys : SysRet) (msg : ℕ) where
  -- the name, and what stands behind it
  abbrev named : Memory → ℕ → List ℕ → Memory
  named m id name = put_name (start_msg m msg id) (body msg) name

  abbrev behind_name : ℕ
  behind_name = body msg + img_name_len

  unfoldable pub flashimg : Memory → Option (List ℕ) → ℕ → ℕ → ℕ → ℕ → ℕ → ℕ → ℕ → Outcome
  flashimg m none gpt partition s_va buf_len buf_crc flashtype va = (exit_failure, m, [])
  flashimg m (some name) gpt partition s_va buf_len buf_crc flashtype va =
      if va == 0
      then (exit_failure, m, [])
      else transmit_collecting api tx sys msg
          (set_words (set_bytes (named m 8 name) behind_name (partition ∷ 0 ∷ 0 ∷ flashtype ∷ []))
            (behind_name + 4) (gpt ∷ s_va ∷ buf_len ∷ buf_crc ∷ []))
          (behind_name + 16) va buf_len buf_crc

  unfoldable pub readimg : Memory → Option (List ℕ) → ℕ → ℕ → ℕ → ℕ → Outcome
  readimg m none partition gpt s_va buf_len = (exit_failure, m, [])
  readimg m (some name) partition gpt s_va buf_len =
      transmit api tx sys msg
        (set_words (named m 7 name) behind_name (partition ∷ gpt ∷ s_va ∷ buf_len ∷ 0 ∷ []))

  unfoldable pub bootimg : Memory → Option (List ℕ) → ℕ → ℕ → ℕ → ℕ → ℕ → ℕ → Outcome
  bootimg m none gpt partition s_va buf_len buf_crc va = (exit_failure, m, [])
  bootimg m (some name) gpt partition s_va buf_len buf_crc va =
      if va == 0
      then (exit_failure, m, [])
      else transmit_collecting api tx sys msg
          (set_words (named m 9 name) behind_name (partition ∷ gpt ∷ s_va ∷ buf_len ∷ buf_crc ∷ []))
          (behind_name + 16) va buf_len buf_crc

  unfoldable pub bootcontinue : Memory → Outcome
  bootcontinue m = transmit api tx sys msg (start_msg m msg 10)

  unfoldable pub injectfault : Memory → ℕ → ℕ → Outcome
  injectfault m enable trigger =
      transmit api tx sys msg (set_words (start_msg m msg 255) (body msg) (enable ∷ trigger ∷ []))

  unfoldable pub queryimage : Memory → ℕ → ℕ → ℕ → ℕ → ℕ → Outcome
  queryimage m num_images buf_len buf_crc s_va va =
      let len = entries_len num_images buf_len in
      if va == 0
      then (exit_failure, m, [])
      else transmit_collecting api tx sys msg
          (set_words (start_msg m msg 6) (body msg) (num_images ∷ s_va ∷ len ∷ buf_crc ∷ []))
          (body msg + 12) va len buf_crc

  -- The six words of the state of the tables come before the list of images.
  unfoldable pub get_bl_info : Memory → ℕ → ℕ → ℕ → ℕ → ℕ → Outcome
  get_bl_info m num_images buf_len buf_crc s_va va =
      let len = entries_len num_images buf_len in
      if va == 0
      then (exit_failure, m, [])
      else transmit_collecting api tx sys msg
          (set_words (start_msg m msg 11) (body msg)
            (0 ∷ 0 ∷ 0 ∷ 0 ∷ 0 ∷ 0 ∷ num_images ∷ s_va ∷ len ∷ buf_crc ∷ []))
          (body msg + 36) va len buf_crc

  unfoldable pub get_image_digest : Memory → ℕ → ℕ → ℕ → ℕ → ℕ → Outcome
  get_image_digest m num_images buf_len buf_crc s_va va =
      if va == 0
      then (exit_failure, m, [])
      else transmit_collecting api tx sys msg
          (set_words (start_msg m msg 22) (body msg) (num_images ∷ s_va ∷ buf_len ∷ buf_crc ∷ []))
          (body msg + 12) va buf_len buf_crc

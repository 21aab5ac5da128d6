-- ===== src/Updater/Metadata.antt =====
-- The commands of apps/rtss-updater/demo/src/rtss_updater_cmd.c on the metadata and the state of the
-- update.
use rtss_mailbox_umd.Base.{ℕ, ◌+◌, ◌==◌, if◌then◌else◌, Option, List, [], ◌∷◌}
use rtss_mailbox_umd.Memory.{Memory}
use rtss_mailbox_umd.Api.Handle.{Uapi, Handle, SysRet}
use rtss_mailbox_umd.Update.Message.{body, start_msg, set_words}
use rtss_mailbox_umd.Updater.Command.{Outcome, exit_failure, transmit, transmit_collecting}

module _ (api : Uapi) (tx : Option Handle) (sys : SysRet) (msg : ℕ) where
  -- A message with the identifier and the words of the union, in the order of the structure.
  unfoldable pub with_words : Memory → ℕ → List ℕ → Memory
  unfolding start_msg set_words
  with_words m id words = set_words (start_msg m msg id) (body msg) words

  unfoldable pub get_metadata : Memory → ℕ → ℕ → Outcome
  get_metadata m s_va buf_len = transmit api tx sys msg (with_words m 12 (s_va ∷ buf_len ∷ 0 ∷ []))

  unfoldable pub set_metadata : Memory → ℕ → ℕ → ℕ → ℕ → Outcome
  set_metadata m s_va buf_len buf_crc va =
      if va == 0
      then (exit_failure, m, [])
      else transmit_collecting api tx sys msg (with_words m 13 (s_va ∷ buf_len ∷ buf_crc ∷ []))
          (body msg + 8) va buf_len buf_crc

  unfoldable pub update_arb : Memory → ℕ → ℕ → ℕ → ℕ → Outcome
  update_arb m d1 d2 d3 d4 = transmit api tx sys msg (with_words m 14 (d1 ∷ d2 ∷ d3 ∷ d4 ∷ []))

  unfoldable pub update_mrc : Memory → ℕ → ℕ → ℕ → ℕ → Outcome
  update_mrc m d1 d2 d3 d4 = transmit api tx sys msg (with_words m 15 (d1 ∷ d2 ∷ d3 ∷ d4 ∷ []))

  unfoldable pub read_metadata : Memory → ℕ → ℕ → ℕ → ℕ → Outcome
  read_metadata m s_va buf_len offset size =
      transmit api tx sys msg (with_words m 16 (s_va ∷ buf_len ∷ 0 ∷ offset ∷ size ∷ []))

  -- The checksum of the caller does not get into the message.
  unfoldable pub write_metadata : Memory → ℕ → ℕ → ℕ → ℕ → ℕ → ℕ → Outcome
  write_metadata m s_va buf_len buf_crc offset size va =
      if va == 0
      then (exit_failure, m, [])
      else transmit_collecting api tx sys msg
          (with_words m 17 (s_va ∷ buf_len ∷ 0 ∷ offset ∷ size ∷ [])) (body msg + 8) va buf_len
          buf_crc

  unfoldable pub erase_metadata : Memory → ℕ → ℕ → Outcome
  erase_metadata m start_block block_cnt =
      transmit api tx sys msg (with_words m 18 (start_block ∷ block_cnt ∷ []))

  unfoldable pub get_metadata_info : Memory → Outcome
  get_metadata_info m = transmit api tx sys msg (with_words m 19 [])

  unfoldable pub update_ota_done_state : Memory → ℕ → ℕ → ℕ → ℕ → Outcome
  update_ota_done_state m d1 d2 d3 d4 =
      transmit api tx sys msg (with_words m 20 (d1 ∷ d2 ∷ d3 ∷ d4 ∷ []))

  unfoldable pub redundancy_established : Memory → ℕ → ℕ → ℕ → ℕ → Outcome
  redundancy_established m d1 d2 d3 d4 =
      transmit api tx sys msg (with_words m 21 (d1 ∷ d2 ∷ d3 ∷ d4 ∷ []))

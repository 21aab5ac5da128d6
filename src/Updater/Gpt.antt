-- ===== src/Updater/Gpt.antt =====
-- The commands of apps/rtss-updater/demo/src/rtss_updater_cmd.c on the partition tables.
pub mod Modify
use rtss_mailbox_umd.Base.{
  ℕ, ◌+◌, ◌-◌, ◌*◌, ◌^◌, ◌||◌, ltb, ◌==◌, if◌then◌else◌, u32, Option, some, [], ◌∷◌,
}
use rtss_mailbox_umd.Memory.{Memory, set_reg, copy_run}
use rtss_mailbox_umd.Api.Handle.{Uapi, Handle, SysRet}
use rtss_mailbox_umd.Gpt.Crc.{Buffer, calc_crc32}
use rtss_mailbox_umd.Gpt.Partition
use rtss_mailbox_umd.Gpt.Partition.{header_sz, lba_sz}
use rtss_mailbox_umd.Update.Message.{body, start_msg, set_run, set_bytes, set_words}
use rtss_mailbox_umd.Updater.Buffers.{mcpy, padding, update_gpt_entry_size}
use rtss_mailbox_umd.Updater.Command.{
  Outcome, exit_success, exit_failure, transmit, transmit_with_crc, transmit_collecting,
}

abbrev pub cache_line_sz : ℕ
cache_line_sz = 64

-- the bytes of a structure at an address
abbrev pub at : Memory → ℕ → Buffer
at m a k = m (a + k)

-- `none` in place of the header that the call fills is its NULL.
pub get_gpthdr : Memory → ℕ → ℕ → ℕ × Memory
get_gpthdr m va gpthdr =
    let (copied, m') = mcpy m gpthdr header_sz va header_sz in
    if va == 0 || gpthdr == 0
    then (exit_failure, m)
    else if copied == 0
    then (exit_failure, m')
    else (exit_success, m')

-- (uint64_t)num_entries * size_of_partition_entry
abbrev pub entries_bytes : Memory → ℕ → ℕ
entries_bytes m gpthdr =
    Partition.number_of_partition_entries (at m gpthdr)
    * Partition.size_of_partition_entry (at m gpthdr)

-- What `rtss_updater_modifygpt` does to the header in the buffer, once the file is read: the place
-- of the other copy and the last usable block come from the header on the flash, and the checksum
-- is computed anew.
unfoldable pub modify_header : Memory → ℕ → ℕ → Memory
modify_header m new_gpthdr gpt_hdr =
    let m1 = copy_run m (new_gpthdr + 32) (gpt_hdr + 32) 8 in
    let m2 = copy_run m1 (new_gpthdr + 48) (gpt_hdr + 48) 8 in
    let m3 = set_reg m2 (new_gpthdr + 16) 0 in
    let crc = calc_crc32 (some (at m3 new_gpthdr)) (Partition.header_size (at m3 new_gpthdr)) 0 in
    set_reg m3 (new_gpthdr + 16) crc

module _ (api : Uapi) (tx : Option Handle) (sys : SysRet) (msg : ℕ) where
  unfoldable pub chkgpt : Memory → Outcome
  chkgpt m =
      transmit api tx sys msg
        (set_words (start_msg m msg 1) (body msg) (0 ∷ 0 ∷ 0 ∷ 0 ∷ 0 ∷ 0 ∷ []))

  unfoldable pub fixgpt : Memory → ℕ → ℕ → ℕ → ℕ → Outcome
  fixgpt m gpt_id s_va buf_len fixtype = transmit api tx sys msg (
      set_bytes (set_words (start_msg m msg 4) (body msg + 4) (s_va ∷ buf_len ∷ [])) (body msg)
        (gpt_id ∷ 0 ∷ 0 ∷ fixtype ∷ []))

  unfoldable pub readgpt : Memory → ℕ → ℕ → ℕ → ℕ → Outcome
  readgpt m gpt_id s_va buf_len va =
      if va == 0
      then (exit_failure, m, [])
      else transmit_with_crc api tx sys msg
          (set_words (start_msg m msg 2) (body msg) (gpt_id ∷ s_va ∷ buf_len ∷ 0 ∷ []))
          (body msg + 12) va buf_len

  -- From the copies in the shared buffer at `localbuf` on.
  write_table : Memory → ℕ → ℕ → ℕ → ℕ → ℕ → ℕ → Outcome
  write_table m gpt_id buf_gpt s_va buf_len buf_crc localbuf =
      let fill = padding buf_len cache_line_sz in
      let len = u32 (buf_len + fill) in
      transmit_collecting api tx sys msg
        (set_words (start_msg (set_run m (buf_gpt + buf_len) 0 fill) msg 3) (body msg)
          (gpt_id ∷ s_va ∷ len ∷ buf_crc ∷ []))
        (body msg + 12) localbuf len buf_crc

  pub writegpt : Memory → ℕ → ℕ → ℕ → ℕ → ℕ → ℕ → Outcome
  unfolding write_table
  writegpt m gpt_id buf_gpt s_va buf_len buf_crc va =
      let gpthdr = buf_gpt + lba_sz in
      let hdr_size = Partition.header_size (at m gpthdr) in
      let entries = entries_bytes m gpthdr in
      let (copied, m1) = mcpy m va header_sz gpthdr header_sz in
      let (copied', m2) = mcpy m1 (va + header_sz) entries (buf_gpt + 2 * lba_sz) entries in
      if buf_gpt == 0 || va == 0
      then (exit_failure, m, [])
      else if ltb (2 ^ 32 - 1 - hdr_size) entries || ltb buf_len (hdr_size + entries)
      then (exit_failure, m, [])
      else if copied == 0
      then (exit_failure, m1, [])
      else if copied' == 0
      then (exit_failure, m2, [])
      else write_table m2 gpt_id buf_gpt s_va buf_len buf_crc va

  unfoldable pub updategpt : Memory → ℕ → ℕ → ℕ → ℕ → ℕ → ℕ → Outcome
  updategpt m num_images gpt s_va buf_len buf_crc va =
      if va == 0
      then (exit_failure, m, [])
      else transmit_collecting api tx sys msg
          (set_words (start_msg m msg 5) (body msg)
            (gpt ∷ num_images ∷ s_va ∷ buf_len ∷ buf_crc ∷ []))
          (body msg + 16) va (u32 (num_images * update_gpt_entry_size)) buf_crc

-- ===== src/Updater/Request/Settle.antt =====
-- Every command either sends one whole request or sends nothing.
use rtss_mailbox_umd.Base.{
  ℕ, ◌+◌, ◌*◌, ◌^◌, ◌≤◌, ◌<◌, ◌≡◌, ◌≢◌, refl, arith, Bool, true, false, not, ◌==◌, if◌then◌else◌,
  u32, none, some, List, [], ◌∷◌, length, ℕ_discrete, ne→==,
}
use rtss_mailbox_umd.Base.Int.{pos}
use rtss_mailbox_umd.Memory.{Memory, set_reg}
use rtss_mailbox_umd.Api.Handle.{Uapi, Handle, SysRet}
use rtss_mailbox_umd.Update.Crc.{e_ok, calculate_crc32}
use rtss_mailbox_umd.Update.Crc.Value.{value, calculated}
use rtss_mailbox_umd.Update.Message.{msg_size, body, start_msg, set_words, crc_into}
use rtss_mailbox_umd.Update.Message.Compose.{
  Only, Only-wider, set_reg-Only, Composed, start_msg-Composed, body_kept,
}
use rtss_mailbox_umd.Updater.Command.{
  Outcome, exit_failure, transmit, transmit_with_crc, transmit_collecting,
}
use rtss_mailbox_umd.Updater.Command.Transmit.{IsReady, IsRequested, transmit_requests}
use rtss_mailbox_umd.Updater.Buffers.{update_gpt_entry_size}
use rtss_mailbox_umd.Updater.Image.{
  entries_len, flashimg, readimg, bootimg, bootcontinue, injectfault, queryimage, get_bl_info,
  get_image_digest,
}
use rtss_mailbox_umd.Updater.Gpt.{chkgpt, fixgpt, readgpt, updategpt}
use rtss_mailbox_umd.Updater.Metadata.{
  with_words, get_metadata, set_metadata, update_arb, update_mrc, read_metadata, write_metadata,
  erase_metadata, get_metadata_info, update_ota_done_state, redundancy_established,
}
use rtss_mailbox_umd.Updater.Request.{
  Request, check_gpt, get_ota_metadatainfo, boot_cont, fix_gpt, read_gpt, update_gpt, query_images,
  read_image, flash_image, boot_image, get_bootinfo, image_digest, get_ota_metadata,
  set_ota_metadata, arb, mrc, read_ota_metadata, write_ota_metadata, erase_ota_metadata, ota_done,
  redundancy, test_error_injection, id_of, sendable, execute, buffer_ok,
}
use rtss_mailbox_umd.Updater.Request.Body.{words_kept, bytes_kept, words, named, named_words}

-- What a command leads to, by whether its arguments let it send.
abbrev pub Settled : Uapi → Memory → Handle → ℕ → Bool → ℕ → Outcome → Type 0
Settled api m h msg ok id o =
    (ok ≡ true → IsRequested api m h id o)
    × (ok ≡ false → (o.0 ≡ exit_failure) × (o.2 ≡ []) × Only msg msg_size m o.1)

module _ (api : Uapi) (m : Memory) (h : Handle) (msg : ℕ) (r : IsReady api m h msg) (sys : SysRet)
    (sys_ok : sys.ret ≡ pos 0) where
  plain :
      (id : ℕ) (m' : Memory)
      → Composed m msg id m'
      → Settled api m h msg true id (transmit api (some h) sys msg m')
  plain id m' c =
      ((λ e. transmit_requests api m h msg r id m' c sys sys_ok), (λ e. absurd (ground arith)))

  refused : (id : ℕ) → Settled api m h msg false id (exit_failure, m, [])
  refused id = ((λ e. absurd (ground arith)), (λ e. (refl, refl, λ p out. refl)))

  module _ (id : ℕ) (m' : Memory) (c : Composed m msg id m') (to : ℕ) (low : body msg ≤ to)
      (high : to + 4 ≤ body msg + 52) where
    summed :
        (va len : ℕ)
        → va ≢ 0
        → len ≢ 0
        → crc_into m' to va len ≡ (e_ok, set_reg m' to (value (λ k. m' (va + k)) len))
    unfolding crc_into
    summed va len va_ok len_ok = ground (arith, calculated (λ k. m' (va + k)) len len_ok)

    not_summed : (va : ℕ) → crc_into m' to va 0 ≡ (3, m')
    unfolding crc_into
    not_summed va = unfold calculate_crc32 in ground arith

    with_crc :
        (va len : ℕ)
        → va ≢ 0
        → Settled api m h msg
            (not (len == 0))
            id
            (transmit_with_crc api (some h) sys msg m' to va len)
    unfolding transmit_with_crc
    with_crc va len there = elim (ℕ_discrete len 0) [
      | yes e ↦ rw (e, not_summed va) ((λ e'. absurd (ground arith)), (λ e'. (refl, refl, c.only)))
      | no some_bytes ↦
          rw (ne→== len 0 some_bytes, summed va len there some_bytes)
            (plain id (set_reg m' to (value (λ k. m' (va + k)) len)) (
              body_kept c (
                Only-wider to 4 (body msg) 52 (set_reg-Only m' to (value (λ k. m' (va + k)) len))
                  low high)))
    ]

    collecting :
        (va len crc : ℕ)
        → Settled api m h msg (buffer_ok va len crc) id (
            if va == 0
            then (exit_failure, m, [])
            else transmit_collecting api (some h) sys msg m' to va len crc)
    unfolding transmit_collecting
    collecting va len crc = elim (ℕ_discrete va 0) [
      | yes e ↦ rw e (refused id)
      | no there ↦ elim (ℕ_discrete crc 0) [
        | no given ↦ rw (ne→== va 0 there, ne→== crc 0 given) (plain id m' c)
        | yes e ↦ rw (ne→== va 0 there, e) (with_crc va len there)
      ]
    ]

  abbrev composed : ℕ → List ℕ → Memory
  composed id ws = set_words (start_msg m msg id) (body msg) ws

  plain_words :
      (id : ℕ) (ws : List ℕ)
      → id < 2 ^ 32
      → 4 * length ws ≤ 52
      → Settled api m h msg true id (transmit api (some h) sys msg (composed id ws))
  plain_words id ws small fits = plain id (composed id ws) (words m msg id ws small fits)

  collecting_words :
      (id : ℕ) (ws : List ℕ) (to : ℕ)
      → id < 2 ^ 32
      → 4 * length ws ≤ 52
      → to + 4 ≤ 52
      → (va len crc : ℕ)
      → Settled api m h msg (buffer_ok va len crc) id (
          if va == 0
          then (exit_failure, m, [])
          else transmit_collecting api (some h) sys msg (composed id ws) (body msg + to) va len crc)
  collecting_words id ws to small fits inside va len crc =
      collecting id (composed id ws) (words m msg id ws small fits) (body msg + to) (omega arith)
        (omega arith) va len crc

  -- Over a channel that takes a message, each command of the updater (but for the writing of a
  -- table) does one of two things. If its arguments let it send, it succeeds, appends exactly one
  -- whole request with its identifier and a valid checksum to the queue, and interrupts the
  -- receiver once. If they do not, it fails, asks nothing of the kernel, and leaves all memory but
  -- the message as it was.
  pub execute_settles :
      (q : Request) → Settled api m h msg (sendable q) (id_of q) (execute api (some h) sys msg q m)
  unfolding execute sendable id_of
  execute_settles (arb a b c d) =
      unfold update_arb with_words in
      plain_words 14 (a ∷ b ∷ c ∷ d ∷ []) (omega arith) (omega arith)
  execute_settles (mrc a b c d) =
      unfold update_mrc with_words in
      plain_words 15 (a ∷ b ∷ c ∷ d ∷ []) (omega arith) (omega arith)
  execute_settles (get_ota_metadata s l) =
      unfold get_metadata with_words in plain_words 12 (s ∷ l ∷ 0 ∷ []) (omega arith) (omega arith)
  execute_settles (read_ota_metadata s l o n) =
      unfold read_metadata with_words in
      plain_words 16 (s ∷ l ∷ 0 ∷ o ∷ n ∷ []) (omega arith) (omega arith)
  execute_settles (erase_ota_metadata a n) =
      unfold erase_metadata with_words in plain_words 18 (a ∷ n ∷ []) (omega arith) (omega arith)
  execute_settles get_ota_metadatainfo =
      unfold get_metadata_info with_words in plain_words 19 [] (omega arith) (omega arith)
  execute_settles (ota_done a b c d) =
      unfold update_ota_done_state with_words in
      plain_words 20 (a ∷ b ∷ c ∷ d ∷ []) (omega arith) (omega arith)
  execute_settles (redundancy a b c d) =
      unfold redundancy_established with_words in
      plain_words 21 (a ∷ b ∷ c ∷ d ∷ []) (omega arith) (omega arith)
  execute_settles (test_error_injection e t) =
      unfold injectfault in plain_words 255 (e ∷ t ∷ []) (omega arith) (omega arith)
  execute_settles check_gpt =
      unfold chkgpt in plain_words 1 (0 ∷ 0 ∷ 0 ∷ 0 ∷ 0 ∷ 0 ∷ []) (omega arith) (omega arith)
  execute_settles (update_gpt n g s l c va) =
      unfold updategpt in
      collecting_words 5 (g ∷ n ∷ s ∷ l ∷ c ∷ []) 16 (omega arith) (omega arith) (omega arith) va
        (u32 (n * update_gpt_entry_size)) c
  execute_settles (query_images n l c s va) =
      unfold queryimage in
      collecting_words 6 (n ∷ s ∷ entries_len n l ∷ c ∷ []) 12 (omega arith) (omega arith)
        (omega arith) va (entries_len n l) c
  execute_settles (get_bootinfo n l c s va) =
      unfold get_bl_info in
      collecting_words 11 (0 ∷ 0 ∷ 0 ∷ 0 ∷ 0 ∷ 0 ∷ n ∷ s ∷ entries_len n l ∷ c ∷ []) 36
        (omega arith) (omega arith) (omega arith) va (entries_len n l) c
  execute_settles (image_digest n l c s va) =
      unfold get_image_digest in
      collecting_words 22 (n ∷ s ∷ l ∷ c ∷ []) 12 (omega arith) (omega arith) (omega arith) va l c
  execute_settles (set_ota_metadata s l c va) =
      unfold set_metadata with_words in
      collecting_words 13 (s ∷ l ∷ c ∷ []) 8 (omega arith) (omega arith) (omega arith) va l c
  execute_settles (write_ota_metadata s l c o n va) =
      unfold write_metadata with_words in
      collecting_words 17 (s ∷ l ∷ 0 ∷ o ∷ n ∷ []) 8 (omega arith) (omega arith) (omega arith) va l
        c
  execute_settles (read_gpt g s l va) =
      unfold readgpt transmit_collecting in
      collecting_words 2 (g ∷ s ∷ l ∷ 0 ∷ []) 12 (omega arith) (omega arith) (omega arith) va l 0
  execute_settles boot_cont =
      unfold bootcontinue in
      plain 10 (start_msg m msg 10) (start_msg-Composed m msg 10 (omega arith))
  execute_settles (fix_gpt g s l f) =
      unfold fixgpt in
      plain 4 _ (
        bytes_kept m msg 4 (set_words (start_msg m msg 4) (body msg + 4) (s ∷ l ∷ [])) (body msg)
          (g ∷ 0 ∷ 0 ∷ f ∷ [])
          (words_kept m msg 4 (start_msg m msg 4) (body msg + 4) (s ∷ l ∷ [])
            (start_msg-Composed m msg 4 (omega arith)) (omega arith) (omega arith))
          (omega arith) (omega arith))
  execute_settles (read_image none p g s l) = unfold readimg in refused 7
  execute_settles (read_image (some name) p g s l) =
      unfold readimg in
      plain 7 _ (named_words m msg 7 name (p ∷ g ∷ s ∷ l ∷ 0 ∷ []) (omega arith) (omega arith))
  execute_settles (flash_image none g p s l c f va) = unfold flashimg in refused 8
  execute_settles (flash_image (some name) g p s l c f va) =
      unfold flashimg in
      collecting 8 _
        (words_kept m msg 8 _ (body msg + 32 + 4) (g ∷ s ∷ l ∷ c ∷ [])
          (bytes_kept m msg 8 _ (body msg + 32) (p ∷ 0 ∷ 0 ∷ f ∷ [])
            (named m msg 8 name (omega arith)) (omega arith) (omega arith))
          (omega arith) (omega arith))
        (body msg + 32 + 16) (omega arith) (omega arith) va l c
  execute_settles (boot_image none g p s l c va) = unfold bootimg in refused 9
  execute_settles (boot_image (some name) g p s l c va) =
      unfold bootimg in
      collecting 9 _ (named_words m msg 9 name (p ∷ g ∷ s ∷ l ∷ c ∷ []) (omega arith) (omega arith))
        (body msg + 32 + 16) (omega arith) (omega arith) va l c

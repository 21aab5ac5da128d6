-- ===== src/Updater/Command.antt =====
-- What the commands of apps/rtss-updater/demo/src/rtss_updater_cmd.c have in common: the checksums
-- of a buffer and of the message, and the sending. `msg` is the address of the local `TxMsg`.
pub mod Transmit
use rtss_mailbox_umd.Base.{ℕ, Bool, not, ◌==◌, if◌then◌else◌, Option, List, []}
use rtss_mailbox_umd.Memory.{Memory}
use rtss_mailbox_umd.Api.Handle.{Uapi, Handle, SysRet, Act}
use rtss_mailbox_umd.Update.Crc.{e_ok}
use rtss_mailbox_umd.Update.Message.{msg_size, header_crc, crc_into, send_msg}

abbrev pub exit_success : ℕ
exit_success = 0

abbrev pub exit_failure : ℕ
exit_failure = 1

-- The status, the memory and what was asked of the kernel.
abbrev pub Outcome : Type 0
Outcome = ℕ × Memory × List Act

module _ (api : Uapi) (tx : Option Handle) (sys : SysRet) (msg : ℕ) where
  -- The last steps of every command: the checksum of the message, and the sending.
  unfoldable pub transmit : Memory → Outcome
  transmit m =
      let (code, m1) = crc_into m (header_crc msg) msg msg_size in
      let (sent, m2, acts) = send_msg api m1 msg tx sys in
      if not (code == e_ok)
      then (exit_failure, m1, [])
      else if not (sent == e_ok)
      then (exit_failure, m2, acts)
      else (exit_success, m2, acts)

  -- The checksum of `len` bytes at `buf` goes to `to` before.
  unfoldable pub transmit_with_crc : Memory → ℕ → ℕ → ℕ → Outcome
  unfolding transmit
  transmit_with_crc m to buf len =
      let (code, m1) = crc_into m to buf len in
      if not (code == e_ok) then (exit_failure, m1, []) else transmit m1

  -- The same, if the caller gave no checksum.
  unfoldable pub transmit_collecting : Memory → ℕ → ℕ → ℕ → ℕ → Outcome
  unfolding transmit_with_crc
  transmit_collecting m to buf len buf_crc =
      if not (buf_crc == 0) then transmit m else transmit_with_crc m to buf len

-- ===== src/Updater/Session/Answered.antt =====
-- A command on channels that work, and its response.
use rtss_mailbox_umd.Base.{
  ℕ, ◌+◌, ◌==◌, ◌≡◌, refl, true, some, List, [], ◌∷◌, ◌++◌, Bool-cases, inl, inr,
}
use rtss_mailbox_umd.Base.Int.{pos}
use rtss_mailbox_umd.Memory.{Memory}
use rtss_mailbox_umd.Api.Handle.{Handle}
use rtss_mailbox_umd.Update.Crc.{e_ok, verify_crc32}
use rtss_mailbox_umd.Update.Message.{msg_size}
use rtss_mailbox_umd.Update.Message.Sealed.{word, unsealed}
use rtss_mailbox_umd.Updater.Command.Transmit.{IsReady}
use rtss_mailbox_umd.Updater.Request.{Request, sendable, execute}
use rtss_mailbox_umd.Updater.Request.Settle.{execute_settles}
use rtss_mailbox_umd.Updater.Response.{Handshake}
use rtss_mailbox_umd.Updater.Response.Carried.{carried-resp_status}
use rtss_mailbox_umd.Updater.Response.Accepted.{
  Waiting, answered_by, hearing, response_taken, read_msg-heard,
}
use rtss_mailbox_umd.Updater.Session.{
  request, sends, answered, Setup, State, Turn, passes, perform, await, ask,
}

answered_by-resp_status : (l : List ℕ) (h : Handshake) → (answered_by l h).resp_status ≡ word l 16
answered_by-resp_status l h =
    elim (Bool-cases (verify_crc32 (word l 0) (some (unsealed l)) msg_size == e_ok)) [
      | inl e ↦ rw e (carried-resp_status (λ k. word l (20 + k)) (word l 8) _)
      | inr e ↦ rw e refl
    ]

-- The setup with the two channels.
abbrev pub on_channels : Setup → (tx rx : Handle) → Setup
on_channels c tx rx = record c { tx = some tx; rx = some rx }

module _ (c : Setup) (tx rx : Handle) (s : State) (q : Request) where
  abbrev pub around : Turn
  around = c.turns s.turn

  -- The memory behind the command, and what the RTSS leaves in it.
  abbrev pub behind : Memory
  behind = (execute c.api (some tx) around.sys c.tx_msg q s.mem).1

  -- On channels that work, and with arguments that allow it, a command and its response do not wait.
  -- The command is sent; the members that the response carries are stored, each from its place in
  -- the structure of the message, if its checksum is right; and the sequence goes on exactly if the
  -- status in the response is 0, also where the checksum is wrong, which the log tells.
  pub ask_answered :
      (l : List ℕ) (rest : List (List ℕ))
      → IsReady c.api s.mem tx c.tx_msg
      → around.sys.ret ≡ pos 0
      → sendable q ≡ true
      → Waiting c.api (around.leaves behind) rx c.rx_msg l rest
      → let (r, s') = ask (on_channels c tx rx) (request q) s in
        (r ≡ passes (word l 16 == 0))
        × (s'.hndshk ≡ answered_by l s.hndshk)
        × (s'.log ≡ (s.log ++ sends (request q) ∷ []) ++ answered (hearing l) (word l 16) ∷ [])
  unfolding ask await perform
  ask_answered l rest ready sys_ok allowed waiting =
      let settled = execute_settles c.api s.mem tx c.tx_msg ready around.sys sys_ok q in
      let sent = settled.0 allowed in
      let (m', runs, left, stays) =
        response_taken c.api (around.leaves behind) rx c.rx_msg l rest waiting s.hndshk
          around.wakes in
      let how =
        read_msg-heard c.api (around.leaves behind) rx c.rx_msg l rest waiting around.wakes in
      rw (sent.succeeds, runs, how, answered_by-resp_status l s.hndshk) (refl, refl, refl)

-- ===== src/Updater/Session.antt =====
-- What the command sequences of apps/rtss-updater/demo/src/rtss_updater.c are made of: a command and
-- the response to it, the steps between two commands, and the ways out of a sequence. A run keeps a
-- log of what it has done.
pub mod Trace
pub mod Steps
pub mod Answered
pub mod Tests
use rtss_mailbox_umd.Base.{
  ℕ, ◌+◌, ◌*◌, Bool, true, false, not, ◌==◌, if◌then◌else◌, u32, Option, none, some, List, [], ◌∷◌,
  ◌++◌,
}
use rtss_mailbox_umd.Base.Int.{uint32}
use rtss_mailbox_umd.Memory.{Memory}
use rtss_mailbox_umd.Api.Handle.{Uapi, Handle, SysRet}
use rtss_mailbox_umd.Api.Transfer.{Wake}
use rtss_mailbox_umd.Updater.Boot.{BootReport, get_bl_partition_status, judge_boot}
use rtss_mailbox_umd.Updater.Buffers.{mset, update_gpt_entry_size}
use rtss_mailbox_umd.Updater.Command.{Outcome, exit_success}
use rtss_mailbox_umd.Updater.Gpt.{cache_line_sz, writegpt}
use rtss_mailbox_umd.Updater.Request.{Request, execute}
use rtss_mailbox_umd.Updater.Load.{File, loadfile}
use rtss_mailbox_umd.Update.Message.{msg_size, set_run, read_msg}
use rtss_mailbox_umd.Updater.Response.{
  Handshake, Heard, heard, cbk_notify_handler, boot_report, with_counts,
}

-- A command of the updater: a request of Updater/Request, or the writing of a table.
pub data Command : Type 0 where
  request : Request → Command
  write_gpt : (gpt_id buf_gpt s_va buf_len buf_crc va : ℕ) → Command

-- What a run has done: a command that returned EXIT_SUCCESS, the return of the handler, with what it
-- could read and the status behind it (with nothing read, that of an earlier response, or 0), a boot report that passed the judgement, and the call that reboots.
pub data Event : Type 0 where
  sends : Command → Event
  answered : (how : Heard) (status : ℕ) → Event
  judged : BootReport → Event
  reboots : Event

-- What happens around a command: what the kernel returns to the sending, what the RTSS has left in
-- memory when the response is read, and the returns of `poll` while it is waited for.
pub record Turn : Type 0 where
  pub sys : SysRet
  pub leaves : Memory → Memory
  pub wakes : List Wake

-- The channels, the addresses, the files and the surroundings of a run. `entries` is the address of
-- updImgEntryType, and `gpthdr` that of the
-- header behind it.
pub record Setup : Type 0 where
  pub api : Uapi
  pub tx : Option Handle
  pub rx : Option Handle
  pub tx_msg : ℕ
  pub rx_msg : ℕ
  pub p_va : ℕ
  pub s_va : ℕ
  pub entries : ℕ
  pub gpthdr : ℕ
  pub files : List ℕ → File
  pub turns : ℕ → Turn

-- `turn` counts the commands that have been answered.
pub record State : Type 0 where
  pub mem : Memory
  pub hndshk : Handshake
  pub turn : ℕ
  pub log : List Event

-- A step gives a value, or leaves the sequence with EXIT_FAILURE, or waits for a response.
pub data Result (A : Type 0) : Type 0 where
  ok : A → Result A
  exits : Result A
  waits : Result A

abbrev pub Action : Type 0 → Type 0
Action A = State → Result A × State

abbrev pub Proc : Type 0
Proc = Action (Unit {0})

abbrev pub pure : {A : Type 0} → A → Action A
pure a s = (ok a, s)

abbrev pub gets : {A : Type 0} → (State → A) → Action A
gets f s = (ok (f s), s)

abbrev pub bind_from : {A B : Type 0} → Result A → State → (A → Action B) → Result B × State
bind_from (ok a) s f = f a s
bind_from exits s f = (exits, s)
bind_from waits s f = (waits, s)

infixl 5 ◌>>=◌ ◌>>◌
unfoldable pub ◌>>=◌ : {A B : Type 0} → Action A → (A → Action B) → Action B
◌>>=◌ m f s = let (r, s') = m s in bind_from r s' f

abbrev pub ◌>>◌ : {A B : Type 0} → Action A → Action B → Action B
m >> k = m >>= λ _. k

-- EXIT_SUCCESS, or the way out
abbrev pub passes : Bool → Result (Unit {0})
passes true = ok tt
passes false = exits

-- A function that works on memory alone and returns its code.
abbrev pub calls : (Memory → ℕ × Memory) → Proc
calls f s = let (code, m') = f s.mem in (passes (code == exit_success), record s { mem = m' })

abbrev pub exit_when : Bool → Proc
exit_when c s = (passes (not c), s)

abbrev pub logged : Event → State → State
logged e s = record s { log = s.log ++ e ∷ [] }

module _ (c : Setup) where
  open c use {api, tx, rx, tx_msg, rx_msg, p_va, entries, files, turns}

  pub perform : SysRet → Command → Memory → Outcome
  perform sys (request q) m = execute api tx sys tx_msg q m
  perform sys (write_gpt g b s l crc va) m = writegpt api tx sys tx_msg m g b s l crc va

  -- `if (rtss_updater_hndshk.respStatus != 0)`, once the handler has returned
  abbrev pub answer : State → Heard → Option (Memory × Handshake) → Result (Unit {0}) × State
  answer s how none = (waits, s)
  answer s how (some (m', h')) = (
    passes (h'.resp_status == 0),
    logged (answered how h'.resp_status) (record s { mem = m'; hndshk = h'; turn = s.turn + 1 }),
  )

  -- The response to the command that has been sent.
  unfoldable pub await : Proc
  await s =
      let around = turns s.turn in
      let m' = around.leaves s.mem in
      answer s (heard rx_msg (read_msg api (set_run m' rx_msg 0 msg_size) rx_msg rx around.wakes))
        (cbk_notify_handler rx_msg api m' rx s.hndshk around.wakes)

  -- A command and its response.
  unfoldable pub ask : Command → Proc
  unfolding await perform
  ask q s =
      let (code, m', acts) = perform (turns s.turn).sys q s.mem in
      let sent = logged (sends q) (record s { mem = m' }) in
      if code == exit_success then await sent else (exits, record s { mem = m' })

  abbrev pub counted : Option BootReport → Handshake → Handshake
  counted none h = h
  counted (some r) h = with_counts r h

  -- `get_bl_partition_status` and `validate_boot_info`; the counters stay raised either way.
  unfoldable pub judge : Proc
  judge s =
      let r = boot_report s.mem entries s.hndshk in
      let s' = record s { hndshk = counted (get_bl_partition_status (some r)).1 s.hndshk } in
      if judge_boot r == exit_success then (ok tt, logged (judged r) s') else (exits, s')

  -- `bufLen` is unsigned, so that only 0 is refused.
  unfoldable pub load : List ℕ → Action ℕ
  load path s =
      let (r, m') = loadfile files s.mem (some path) p_va cache_line_sz in
      (if uint32 r == 0 then exits else ok (uint32 r), record s { mem = m' })

  -- `system("reboot")`
  unfoldable pub reboot : Proc
  reboot s = (ok tt, logged reboots s)

  unfoldable pub clear_buffer : ℕ → Proc
  clear_buffer len s = (ok tt, record s { mem = mset s.mem p_va 0 len })

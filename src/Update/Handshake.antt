-- ===== src/Update/Handshake.antt =====
-- The handshake of apps/rtss-updater/lib/rtss_update/src/rtss_update_lib.c: `rtss_upd_hello_ping`, its
-- parts, and `rtss_upd_is_ready`. The loop over the two labels is a state machine: a step goes from
-- one label to the next, and its surroundings are what the kernel returns to the send and the
-- returns of `poll` to the read.
pub mod Ends
pub mod Outcome
pub mod Hello
pub mod Tests
use rtss_mailbox_umd.Base.{
  ℕ, zero, suc, ◌+◌, ◌^◌, Bool, true, false, not, ◌&&◌, ltb, ◌==◌, if◌then◌else◌, Option, none,
  some, List, [], ◌∷◌, ◌++◌,
}
use rtss_mailbox_umd.Base.Int.{ℤ, pos}
use rtss_mailbox_umd.Memory.{Memory, set_reg}
use rtss_mailbox_umd.Api.Handle.{Uapi, Handle, SysRet, Act}
use rtss_mailbox_umd.Api.Transfer
use rtss_mailbox_umd.Api.Transfer.{Wake}
use rtss_mailbox_umd.Api.Control
use rtss_mailbox_umd.Update.Crc.{e_ok, e_err}
use rtss_mailbox_umd.Update.Message.{
  msg_size, md2rtss, rtss2md, header_crc, header_size, msg_id, direction, status, body, set_run,
  set_bytes, set_words, crc_into, short, send_msg,
}

-- struct rtss_upd_lib_handle
pub record LibHandle : Type 0 where
  pub msgsz : ℕ
  pub libstate : ℕ
  pub progmode : ℕ

-- RTSS_UPD_S_DEINIT, RTSS_UPD_S_INIT and RTSS_UPD_S_READY
abbrev pub s_deinit : ℕ
s_deinit = 0

abbrev pub s_init : ℕ
s_init = 1

abbrev pub s_ready : ℕ
s_ready = 2

-- RTSS_UPD_MODE_SP_SCALL and RTSS_UPD_MODE_EV
abbrev pub mode_sp_scall : ℕ
mode_sp_scall = 1

abbrev pub mode_ev : ℕ
mode_ev = 2

abbrev pub rtss_upd_lib_handle : LibHandle
rtss_upd_lib_handle = record { msgsz = msg_size; libstate = s_deinit; progmode = 0 }

-- RTSS_UPD_PING_ERR_CNT and RTSS_UPD_PING_RETRY_CNT
abbrev pub ping_err_limit : ℕ
ping_err_limit = 10

abbrev pub ping_retry_limit : ℕ
ping_retry_limit = 3

-- RTSS_UPD_EV_RETRY_WT_TIME and RTSS_UPD_EV_WT_TIME
abbrev pub retry_wait_time : ℤ
retry_wait_time = pos 16000

abbrev pub wait_time : ℤ
wait_time = pos 6000

-- `memcmp(a, b, n) == 0`
pub same_run : Memory → ℕ → ℕ → ℕ → Bool
same_run m a b zero = true
same_run m a b (suc n) = let rest = same_run m (a + 1) (b + 1) n in m a == m b && rest

pub verify_handshake : LibHandle → ℕ → Memory → ℕ → ℕ → ℕ × LibHandle × Memory
verify_handshake lib mode m tx_msg rx_msg =
    let m' =
      set_reg (set_reg (set_reg m (header_crc rx_msg) 0) (header_crc tx_msg) 0) (direction tx_msg)
        rtss2md in
    if not (same_run m' tx_msg rx_msg lib.msgsz)
    then (e_err, lib, m')
    else if mode == mode_sp_scall
    then (e_ok, record lib { libstate = s_ready; progmode = mode_sp_scall }, m')
    else if mode == mode_ev
    then (e_ok, record lib { libstate = s_init; progmode = mode_ev }, m')
    else (e_err, lib, m')

-- "HELLO" and the version 1.0
abbrev pub put_hello : Memory → ℕ → Memory
put_hello m msg =
    set_words (set_bytes m (body msg) (72 ∷ 69 ∷ 76 ∷ 76 ∷ 79 ∷ 0 ∷ [])) (body msg + 32)
      (1 ∷ 0 ∷ [])

-- RTSS_UPD_MSG_HELLO is 0.
pub ping_tx_msg_pack : LibHandle → Memory → ℕ → ℕ × Memory
ping_tx_msg_pack lib m tx_msg =
    let packed =
      set_reg
        (put_hello
          (set_words (set_run m tx_msg 0 lib.msgsz) (header_size tx_msg)
            (lib.msgsz ∷ 0 ∷ md2rtss ∷ 0 ∷ []))
          tx_msg)
        (header_crc tx_msg) 0 in
    let (code, m') = crc_into packed (header_crc tx_msg) tx_msg lib.msgsz in
    if not (code == e_ok) then (e_err, packed) else (e_ok, m')

pub ping_rx_msg_pack : LibHandle → Memory → ℕ → Memory
ping_rx_msg_pack lib m rx_msg = set_run m rx_msg 0 lib.msgsz

-- the local variables, the library's state and the memory
pub record Ping : Type 0 where
  pub timeout : ℤ
  pub retry_cnt : ℕ
  pub err_cnt : ℕ
  pub lib : LibHandle
  pub mem : Memory
  pub acts : List Act

-- rtss_upd_ping and rtss_upd_ping_recovery
pub data Label : Type 0 where
  at_ping at_recovery : Label

-- Where a step leads: to a label, out of the function, or nowhere while the thread waits.
pub data Next : Type 0 where
  goto : Label → Ping → Next
  returns : Bool → Ping → Next
  blocks : Ping → Next

-- What happens around a step.
pub record Around : Type 0 where
  pub sys : SysRet
  pub wakes : List Wake

-- another error: the counters and the timeout start again
abbrev pub failed : Ping → Ping
failed s = record s { timeout = retry_wait_time; retry_cnt = 0; err_cnt = s.err_cnt + 1 }

-- more steps than the two counters allow
abbrev pub ping_fuel : ℕ
ping_fuel = 96

module _ (api : Uapi) (mode : ℕ) (tx rx : Option Handle) (tx_msg rx_msg : ℕ) where
  pub ping_step : SysRet → Ping → Next
  ping_step sys s =
      let (packed, m1) = ping_tx_msg_pack s.lib s.mem tx_msg in
      let m2 = ping_rx_msg_pack s.lib m1 rx_msg in
      let (sent, m3, acts) = send_msg api m2 tx_msg tx sys in
      let reset = (Control.chan_reset (Control.chan_reset m3 tx).1 rx).1 in
      if ltb ping_err_limit s.err_cnt
      then returns false s
      else if not (packed == e_ok)
      then returns false (record s { mem = m1 })
      else if not (sent == e_ok)
      then goto at_ping (failed (record s { mem = reset; acts = s.acts ++ acts }))
      else goto at_recovery
          (record s { retry_cnt = s.retry_cnt + 1; mem = m3; acts = s.acts ++ acts })

  -- The response did not match: the next one is awaited without another HELLO.
  pub mismatch_step : Ping → Next
  mismatch_step s =
      let (packed, m1) = ping_tx_msg_pack s.lib s.mem tx_msg in
      let again = failed (record s { mem = ping_rx_msg_pack s.lib m1 rx_msg }) in
      if not (packed == e_ok)
      then returns false (record s { timeout = retry_wait_time; mem = m1 })
      else if ltb ping_err_limit again.err_cnt
      then returns false again
      else goto at_recovery again

  pub check_step : Ping → Next
  check_step s =
      let (code, lib', m') = verify_handshake s.lib mode s.mem tx_msg rx_msg in
      let s' = record s { lib = lib'; mem = m' } in
      if not (code == e_ok)
      then mismatch_step s'
      else if ltb s.retry_cnt ping_retry_limit
      then goto at_ping (record s' { timeout = wait_time })
      else returns true s'

  -- Behind the read; `none` where it still waits.
  pub received_step : Ping → Option (ℤ × Memory) → Next
  received_step s none = blocks s
  received_step s (some (ret, m')) =
      if short ret
      then goto at_ping (failed (record s { mem = (Control.chan_reset m' rx).1 }))
      else check_step (record s { mem = m' })

  pub recovery_step : List Wake → Ping → Next
  recovery_step wakes s =
      received_step s (Transfer.read_timed api s.mem rx rx_msg msg_size s.timeout wakes)

  pub step : Label → Around → Ping → Next
  step at_ping around s = ping_step around.sys s
  step at_recovery around s = recovery_step around.wakes s

  -- As many steps as the fuel allows; `around n` belongs to the step with `n` fuel left.
  pub run : ℕ → (ℕ → Around) → Next → Next
  run zero around next = next
  run (suc n) around (goto label s) = run n around (step label (around n) s)
  run (suc n) around (returns b s) = returns b s
  run (suc n) around (blocks s) = blocks s

  abbrev pub ping_start : LibHandle → Memory → Ping
  ping_start lib m = record {
    timeout = retry_wait_time;
    retry_cnt = 0;
    err_cnt = 0;
    lib = lib;
    mem = set_run (set_run m rx_msg 0 msg_size) tx_msg 0 msg_size;
    acts = [];
  }

  pub hello_ping : LibHandle → Memory → (ℕ → Around) → Next
  hello_ping lib m around = run ping_fuel around (goto at_ping (ping_start lib m))

  pub is_ready : LibHandle → Memory → (ℕ → Around) → Next
  is_ready lib m around =
      if not (lib.libstate == s_deinit)
      then returns false (record (ping_start lib m) { mem = m })
      else hello_ping lib m around

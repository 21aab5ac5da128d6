-- ===== src/Update/Handshake/Ends.antt =====
-- The handshake comes to an end: the counters of errors and of good responses bound its steps.
use rtss_mailbox_umd.Base.{
  ℕ, zero, suc, ◌+◌, ◌-◌, ◌*◌, ◌≤◌, ◌≡◌, ◌⊎◌, inl, inr, refl, arith, Bool, Option, some, none, List,
}
use rtss_mailbox_umd.Base.Int.{ℤ}
use rtss_mailbox_umd.Memory.{Memory}
use rtss_mailbox_umd.Api.Handle.{Uapi, Handle, SysRet}
use rtss_mailbox_umd.Api.Transfer.{Wake}
use rtss_mailbox_umd.Update.Handshake.{
  LibHandle, Ping, Label, at_ping, at_recovery, Next, goto, returns, blocks, Around,
  verify_handshake, received_step, ping_step, mismatch_step, check_step, recovery_step, step, run,
  ping_fuel, ping_start, hello_ping,
}

-- how many steps at most are left
abbrev left : Label → Ping → ℕ
left at_ping s = (11 - s.err_cnt) * 8 + 2 * (3 - s.retry_cnt) + 1
left at_recovery s = (11 - s.err_cnt) * 8 + 2 * (3 - s.retry_cnt) + 2

abbrev most_errors : Label → ℕ
most_errors at_ping = 11
most_errors at_recovery = 10

abbrev most_retries : Label → ℕ
most_retries at_ping = 2
most_retries at_recovery = 3

-- The counters are in range, and at most `n` steps are left.
abbrev Within : ℕ → Next → Type 0
Within n (goto label s) =
    (s.err_cnt ≤ most_errors label) × (s.retry_cnt ≤ most_retries label) × (left label s ≤ n)
Within n (returns b s) = 0 ≤ n
Within n (blocks s) = 0 ≤ n

module _ (api : Uapi) (mode : ℕ) (tx rx : Option Handle) (tx_msg rx_msg : ℕ) where
  ping_step-Within :
      (n : ℕ) (sys : SysRet) (s : Ping)
      → Within (suc n) (goto at_ping s)
      → Within n (ping_step api mode tx rx tx_msg rx_msg sys s)
  unfolding ping_step
  ping_step-Within n sys s h = ground arith

  mismatch_step-Within :
      (n : ℕ) (s : Ping)
      → Within (suc n) (goto at_recovery s)
      → Within n (mismatch_step api mode tx rx tx_msg rx_msg s)
  unfolding mismatch_step
  mismatch_step-Within n s h = ground arith

  check_step-Within :
      (n : ℕ) (s : Ping)
      → Within (suc n) (goto at_recovery s)
      → Within n (check_step api mode tx rx tx_msg rx_msg s)
  unfolding check_step
  check_step-Within n s h =
      let v = verify_handshake s.lib mode s.mem tx_msg rx_msg in
      ground (arith, mismatch_step-Within n (record s { lib = v.1; mem = v.2 }) h)

  received_step-Within :
      (n : ℕ) (s : Ping) (got : Option (ℤ × Memory))
      → Within (suc n) (goto at_recovery s)
      → Within n (received_step api mode tx rx tx_msg rx_msg s got)
  unfolding received_step
  received_step-Within n s none h = omega arith
  received_step-Within n s (some (ret, m')) h =
      ground (arith, check_step-Within n (record s { mem = m' }) h)

  recovery_step-Within :
      (n : ℕ) (wakes : List Wake) (s : Ping)
      → Within (suc n) (goto at_recovery s)
      → Within n (recovery_step api mode tx rx tx_msg rx_msg wakes s)
  unfolding recovery_step
  recovery_step-Within n wakes s h = received_step-Within n s _ h

  step-Within :
      (n : ℕ) (label : Label) (around : Around) (s : Ping)
      → Within (suc n) (goto label s)
      → Within n (step api mode tx rx tx_msg rx_msg label around s)
  unfolding step
  step-Within n at_ping around s h = ping_step-Within n around.sys s h
  step-Within n at_recovery around s h = recovery_step-Within n around.wakes s h

  run-Within :
      (n : ℕ) (around : ℕ → Around) (next : Next)
      → Within n next
      → Within 0 (run api mode tx rx tx_msg rx_msg n around next)
  unfolding run
  run-Within zero around next h = h
  run-Within (suc n) around (goto label s) h =
      run-Within n around (step api mode tx rx tx_msg rx_msg label (around n) s)
        (step-Within n label (around n) s h)
  run-Within (suc n) around (returns b s) h = omega arith
  run-Within (suc n) around (blocks s) h = omega arith

  Within-ends :
      (next : Next)
      → Within 0 next
      → ((b : Bool) × (s : Ping) × (next ≡ returns b s)) ⊎ ((s : Ping) × (next ≡ blocks s))
  Within-ends (goto at_ping s) h = absurd (omega arith)
  Within-ends (goto at_recovery s) h = absurd (omega arith)
  Within-ends (returns b s) h = inl (b, s, refl)
  Within-ends (blocks s) h = inr (s, refl)

  -- Whatever the kernel and the RTSS answer, the loop of the handshake is left after at most 95
  -- steps: it returns, or its thread waits in a read.
  pub hello_ping_ends :
      (lib : LibHandle) (m : Memory) (around : ℕ → Around)
      → let next = hello_ping api mode tx rx tx_msg rx_msg lib m around in
        ((b : Bool) × (s : Ping) × (next ≡ returns b s)) ⊎ ((s : Ping) × (next ≡ blocks s))
  unfolding hello_ping
  hello_ping_ends lib m around = Within-ends _ (
      run-Within ping_fuel around (goto at_ping (ping_start api mode tx rx tx_msg rx_msg lib m))
        (omega arith, omega arith, omega arith))

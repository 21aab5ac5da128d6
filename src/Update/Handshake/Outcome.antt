-- ===== src/Update/Handshake/Outcome.antt =====
-- What the handshake returns, and how it leaves the library.
use rtss_mailbox_umd.Base.{
  ℕ, zero, suc, ◌≤◌, ◌≡◌, ◌≢◌, ◌⊎◌, inl, inr, refl, arith, Bool, true, false, Option, some, none,
  [],
}
use mathlib.Core.Path.{subst}
use rtss_mailbox_umd.Base.Int.{ℤ}
use rtss_mailbox_umd.Memory.{Memory}
use rtss_mailbox_umd.Api.Handle.{Uapi, Handle, SysRet}
use rtss_mailbox_umd.Api.Transfer.Return.{has_timeout, read_timed_returns}
use rtss_mailbox_umd.Update.Crc.{e_ok}
use rtss_mailbox_umd.Update.Message.{msg_size}
use rtss_mailbox_umd.Update.Handshake.{
  LibHandle, s_deinit, s_init, s_ready, mode_sp_scall, mode_ev, same_run, verify_handshake, Ping,
  Label, at_ping, at_recovery, Next, goto, returns, blocks, Around, ping_step, mismatch_step,
  check_step, received_step, recovery_step, step, run, ping_fuel, ping_start, hello_ping, is_ready,
}
use rtss_mailbox_umd.Update.Handshake.Ends.{hello_ping_ends}

-- The mode is one of the two that there are, and the library stands as the mode wants it.
abbrev pub Initialised : ℕ → LibHandle → Type 0
Initialised mode lib =
    (lib.progmode ≡ mode)
    × (((mode ≡ mode_sp_scall) × (lib.libstate ≡ s_ready))
        ⊎ ((mode ≡ mode_ev) × (lib.libstate ≡ s_init)))

module _ (api : Uapi) (mode : ℕ) (tx rx : Option Handle) (tx_msg rx_msg : ℕ) where
  -- The library, and the response in memory, are as a success needs them.
  abbrev pub Succeeded : Ping → Type 0
  Succeeded s = Initialised mode s.lib × (same_run s.mem tx_msg rx_msg s.lib.msgsz ≡ true)

  -- A thread waits only if it may.
  abbrev Justified : Bool → Next → Type 0
  Justified may (goto label s) = 0 ≤ 1
  Justified may (returns false s) = 0 ≤ 1
  Justified may (returns true s) = Succeeded s
  Justified may (blocks s) = may ≡ true

  verify_handshake-Initialised :
      (lib : LibHandle) (m : Memory)
      → let (code, lib', m') = verify_handshake lib mode m tx_msg rx_msg in
        code ≡ e_ok → Initialised mode lib' × (same_run m' tx_msg rx_msg lib'.msgsz ≡ true)
  unfolding verify_handshake
  verify_handshake-Initialised lib m h = ground arith

  module _ (may : Bool) where
    ping_step-Justified :
        (sys : SysRet) (s : Ping) → Justified may (ping_step api mode tx rx tx_msg rx_msg sys s)
    unfolding ping_step
    ping_step-Justified sys s = ground arith

    mismatch_step-Justified :
        (s : Ping) → Justified may (mismatch_step api mode tx rx tx_msg rx_msg s)
    unfolding mismatch_step
    mismatch_step-Justified s = ground arith

    check_step-Justified : (s : Ping) → Justified may (check_step api mode tx rx tx_msg rx_msg s)
    unfolding check_step
    check_step-Justified s =
        let v = verify_handshake s.lib mode s.mem tx_msg rx_msg in
        ground (
          arith,
          mismatch_step-Justified (record s { lib = v.1; mem = v.2 }),
          verify_handshake-Initialised s.lib s.mem,
        )

    received_step-Justified :
        (s : Ping) (got : Option (ℤ × Memory))
        → (may ≡ true) ⊎ (got ≢ none)
        → Justified may (received_step api mode tx rx tx_msg rx_msg s got)
    unfolding received_step
    received_step-Justified s none h = ground arith
    received_step-Justified s (some (ret, m')) h =
        ground (arith, check_step-Justified (record s { mem = m' }))

    abbrev Answered : Around → Type 0
    Answered around = (may ≡ true) ⊎ (has_timeout around.wakes ≡ true)

    step-Justified :
        (label : Label) (around : Around) (s : Ping)
        → Answered around
        → Justified may (step api mode tx rx tx_msg rx_msg label around s)
    unfolding step recovery_step
    step-Justified at_ping around s h = ping_step-Justified around.sys s
    step-Justified at_recovery around s (inl h) = received_step-Justified s _ (inl h)
    step-Justified at_recovery around s (inr h) =
        received_step-Justified s _
          (inr (read_timed_returns api s.mem rx rx_msg msg_size s.timeout around.wakes h))

    run-Justified :
        (n : ℕ) (around : ℕ → Around) (next : Next)
        → ((k : ℕ) → Answered (around k))
        → Justified may next
        → Justified may (run api mode tx rx tx_msg rx_msg n around next)
    unfolding run
    run-Justified zero around next all h = h
    run-Justified (suc n) around (goto label s) all h =
        run-Justified n around (step api mode tx rx tx_msg rx_msg label (around n) s) all
          (step-Justified label (around n) s (all n))
    run-Justified (suc n) around (returns b s) all h = h
    run-Justified (suc n) around (blocks s) all h = h

    hello_ping-Justified :
        (lib : LibHandle) (m : Memory) (around : ℕ → Around)
        → ((k : ℕ) → Answered (around k))
        → Justified may (hello_ping api mode tx rx tx_msg rx_msg lib m around)
    unfolding hello_ping
    hello_ping-Justified lib m around all =
        run-Justified ping_fuel around
          (goto at_ping (ping_start api mode tx rx tx_msg rx_msg lib m)) all (omega arith)

  -- A handshake that succeeds has been run in one of the two modes, leaves the library in the
  -- state of its mode, READY or INIT, and in memory a response that is what the buffer of the sender
  -- holds byte by byte, with the direction turned round and without the checksums.
  pub hello_ping-Succeeded :
      (lib : LibHandle) (m : Memory) (around : ℕ → Around) (s : Ping)
      → hello_ping api mode tx rx tx_msg rx_msg lib m around ≡ returns true s
      → Succeeded s
  hello_ping-Succeeded lib m around s e =
      subst (Justified true) e (hello_ping-Justified true lib m around (λ k. inl refl))

  -- If in every round `poll` times out where nothing arrives, the handshake returns: it succeeds or
  -- gives up, and never waits for ever.
  pub hello_ping_returns :
      (lib : LibHandle) (m : Memory) (around : ℕ → Around)
      → ((k : ℕ) → has_timeout (around k).wakes ≡ true)
      → (b : Bool) × (s : Ping) × (hello_ping api mode tx rx tx_msg rx_msg lib m around
          ≡ returns b s)
  hello_ping_returns lib m around timely =
      elim (hello_ping_ends api mode tx rx tx_msg rx_msg lib m around) [
        | inl returned ↦ returned
        | inr (s, e) ↦ absurd (
            ground (
              arith,
              subst (Justified false) e
                  (hello_ping-Justified false lib m around (λ k. inr (timely k))),
            ))
      ]

  entered :
      (lib : LibHandle) (m : Memory) (around : ℕ → Around) (s : Ping)
      → is_ready api mode tx rx tx_msg rx_msg lib m around ≡ returns true s
      → hello_ping api mode tx rx tx_msg rx_msg lib m around ≡ returns true s
  unfolding is_ready
  entered lib m around s e = ground arith

  refuses :
      (lib : LibHandle) (m : Memory) (around : ℕ → Around)
      → lib.libstate ≢ s_deinit
      → is_ready api mode tx rx tx_msg rx_msg lib m around
        ≡ returns false (record (ping_start api mode tx rx tx_msg rx_msg lib m) { mem = m })
  unfolding is_ready
  refuses lib m around h = ground arith

  -- Once it has succeeded, `rtss_upd_is_ready` succeeds no more: a further call returns false and
  -- leaves the library and the memory alone.
  pub is_ready_once :
      (lib : LibHandle) (m : Memory) (around : ℕ → Around) (s : Ping)
      → is_ready api mode tx rx tx_msg rx_msg lib m around ≡ returns true s
      → (m' : Memory) (around' : ℕ → Around)
      → (s' : Ping) × (is_ready api mode tx rx tx_msg rx_msg s.lib m' around' ≡ returns false s')
        × (s'.lib ≡ s.lib)
        × (s'.mem ≡ m')
        × (s'.acts ≡ [])
  is_ready_once lib m around s e m' around' =
      let h = hello_ping-Succeeded lib m around s (entered lib m around s e) in
      (
        record (ping_start api mode tx rx tx_msg rx_msg s.lib m') { mem = m' },
        refuses s.lib m' around' (omega (arith, h)),
        refl,
        refl,
        refl,
      )

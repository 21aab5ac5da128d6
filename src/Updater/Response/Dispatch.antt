-- ===== src/Updater/Response/Dispatch.antt =====
-- What a response changes, by its identifier.
use rtss_mailbox_umd.Base.{ℕ, ◌≤◌, ◌≡◌, refl, arith}
use rtss_mailbox_umd.Updater.Response.{Handshake, dispatch}

-- Only the words of the union up to the last one are read.
pub dispatch_ext :
    (v w : ℕ → ℕ) (id : ℕ) (h : Handshake)
    → ((k : ℕ) → k ≤ 48 → v k ≡ w k)
    → dispatch v id h ≡ dispatch w id h
unfolding dispatch
dispatch_ext v w id h e =
    rw
      (
        e 0 (omega arith),
        e 4 (omega arith),
        e 8 (omega arith),
        e 12 (omega arith),
        e 16 (omega arith),
        e 20 (omega arith),
        e 24 (omega arith),
        e 28 (omega arith),
        e 40 (omega arith),
        e 44 (omega arith),
        e 48 (omega arith),
      )
      refl

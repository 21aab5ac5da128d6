-- ===== src/Update/Crc/Ext.antt =====
-- The verification of a checksum reads the bytes of its buffer, and nothing else.
use rtss_mailbox_umd.Base.{ℕ, ◌<◌, ◌≡◌, refl, some, arith}
use rtss_mailbox_umd.Update.Crc.{Buffer, verify_crc32, crc32_verify, crc32_generate}
use rtss_mailbox_umd.Update.Crc.Value.{crc32_loop_ext}

pub verify_crc32_ext :
    (crc len : ℕ) (b c : Buffer)
    → ((k : ℕ) → k < len → b k ≡ c k)
    → verify_crc32 crc (some b) len ≡ verify_crc32 crc (some c) len
unfolding verify_crc32 crc32_verify crc32_generate
verify_crc32_ext crc len b c same =
    rw (crc32_loop_ext len 0 b c 0xffff_ffff (λ k l u. same k (omega arith))) refl

-- ===== src/Memory/Tests.antt =====
-- Runs of the copy routine.
use rtss_mailbox_umd.Base.{◌%◌, ◌≡◌, refl, arith}
use rtss_mailbox_umd.Memory.{Memory, get_reg, set_reg, libmbcopy_bytes, copy_run, loops}
use rtss_mailbox_umd.Memory.Copy.{libmbcopy_bytes-copy_run}

abbrev background : Memory
background p = p % 251

-- aligned: two words of 8, then 3 bytes
libmbcopy_bytes-copy_run_example :
    libmbcopy_bytes background 1600 800 19 ≡ copy_run background 1600 800 19
libmbcopy_bytes-copy_run_example =
    libmbcopy_bytes-copy_run background 1600 800 19 (omega arith) (omega arith) (omega arith)

last_copied : libmbcopy_bytes background 1600 800 19 1618 ≡ 65
unfolding libmbcopy_bytes loops copy_run
last_copied = refl

stored_and_loaded : get_reg (set_reg background 40 0x1234_5678) 40 ≡ 0x1234_5678
unfolding get_reg set_reg
stored_and_loaded = refl

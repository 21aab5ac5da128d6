-- ===== src/Updater/Load.antt =====
-- `rtss_updater_loadfile` of apps/rtss-updater/demo/src/rtss_updater_cmd.c. What the system answers about a
-- file is given beforehand.
pub mod Padded
pub mod Tests
use rtss_mailbox_umd.Base.{
  ℕ, ◌+◌, Bool, not, ◌||◌, ltb, ◌==◌, if◌then◌else◌, Option, none, some, List, length,
}
use rtss_mailbox_umd.Base.Int.{ℤ, negsuc, int32}
use rtss_mailbox_umd.Memory.{Memory}
use rtss_mailbox_umd.Update.Message.{set_byte, set_bytes}
use rtss_mailbox_umd.Updater.Buffers.{mset, padding}

pub record File : Type 0 where
  -- `stat` succeeds
  pub found : Bool
  pub st_size : ℕ
  -- st_mode & 0400
  pub owner_reads : Bool
  pub opens : Bool
  -- the bytes that `pread` stores and returns the number of; `none` where it fails
  pub bytes : Option (List ℕ)

-- From the open file on.
unfoldable pub load_open : Memory → ℕ → ℕ → ℕ → Option (List ℕ) → ℤ × Memory
load_open m dst alignment fsize none = (negsuc 0, m)
load_open m dst alignment fsize (some bytes) =
    let psize = padding fsize alignment in
    let m1 = set_bytes m dst bytes in
    let m2 = mset (set_byte m1 (dst + fsize) 0) (dst + fsize) 0 psize in
    if not (length bytes == fsize)
    then (negsuc 0, m1)
    else if ltb 0 psize
    then (int32 (fsize + psize), m2)
    else (int32 fsize, m1)

-- `none` for the path is NULL.
unfoldable pub loadfile : (List ℕ → File) → Memory → Option (List ℕ) → ℕ → ℕ → ℤ × Memory
unfolding load_open
loadfile files m none dst alignment = (negsuc 0, m)
loadfile files m (some path) dst alignment =
    let file = files path in
    if dst == 0 || not file.found || not file.owner_reads || not file.opens
    then (negsuc 0, m)
    else load_open m dst alignment file.st_size file.bytes

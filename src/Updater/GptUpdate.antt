-- ===== src/Updater/GptUpdate.antt =====
-- The update of the partition table: `rtss_updater_modifygpt` of
-- apps/rtss-updater/demo/src/rtss_updater_cmd.c, and the sequence `rtss_updater_image_update_gpt` of
-- rtss_updater.c that writes what it makes. The sequence runs once in a process, so there is no
-- earlier buffer to free.
pub mod Order
use rtss_mailbox_umd.Base.{
  ℕ, ◌+◌, Bool, true, false, not, ◌||◌, ltb, ◌==◌, if◌then◌else◌, u32, Option, none, some, List, [],
  ◌∷◌, length,
}
use rtss_mailbox_umd.Memory.{Memory}
use rtss_mailbox_umd.Gpt.Partition.{lba_sz}
use rtss_mailbox_umd.Update.Message.{set_run, set_bytes}
use rtss_mailbox_umd.Updater.Buffers.{alignnum, padding}
use rtss_mailbox_umd.Updater.Gpt.{cache_line_sz, get_gpthdr, modify_header}
use rtss_mailbox_umd.Updater.Request.{check_gpt, read_gpt, fix_gpt}
use rtss_mailbox_umd.Updater.Session.{
  request, write_gpt, Result, ok, exits, Setup, State, Action, Proc, gets, calls, ◌>>=◌, ◌>>◌, ask,
  clear_buffer,
}

-- What the system answers about the file of the table.
pub record GptFile : Type 0 where
  -- `access`
  pub found : Bool
  pub opens : Bool
  -- `ftell`, `none` where errno is set
  pub size : Option ℕ
  -- `calloc`, 0 for NULL
  pub buffer : ℕ
  -- what each call of `fread` stores; behind the list it stores nothing
  pub shots : List (List ℕ)

-- The loop of calls of `fread`: whether it ends with a call that stores all of the file.
unfoldable pub read_shots : List (List ℕ) → Memory → ℕ → ℕ → ℕ → Bool × Memory
read_shots [] m buf num_bytes size = (false, m)
read_shots (shot ∷ shots) m buf num_bytes size =
    let m' = set_bytes m (buf + num_bytes) shot in
    let rest = read_shots shots m' buf (length shot) size in
    if length shot == 0 then (false, m') else if ltb (length shot) size then rest else (true, m')

-- The buffer and its size, `none` for NULL.
unfoldable pub modify_sized : GptFile → Memory → ℕ → Option ℕ → Option (ℕ × ℕ) × Memory
unfolding read_shots
modify_sized file m gpt_hdr none = (none, m)
modify_sized file m gpt_hdr (some size) =
    let cleared = set_run m file.buffer 0 (size + padding size cache_line_sz) in
    let (read, m') = read_shots file.shots cleared file.buffer 0 size in
    if file.buffer == 0
    then (none, m)
    else if not read
    then (none, m')
    else (some (file.buffer, size), modify_header m' (file.buffer + lba_sz) gpt_hdr)

unfoldable pub modifygpt : GptFile → Memory → ℕ → Option (ℕ × ℕ) × Memory
unfolding modify_sized
modifygpt file m gpt_hdr =
    if gpt_hdr == 0 || not file.found || not file.opens
    then (none, m)
    else modify_sized file m gpt_hdr file.size

abbrev made : Option (ℕ × ℕ) → Result (ℕ × ℕ)
made none = exits
made (some b) = ok b

-- The table that the file and the header on the flash make.
unfoldable pub new_table : Setup → GptFile → Action (ℕ × ℕ)
unfolding modifygpt
new_table c file s =
    let (table, m') = modifygpt file s.mem c.gpthdr in (made table, record s { mem = m' })

module _ (c : Setup) (file : GptFile) where
  open c use {p_va, s_va, gpthdr}

  unfoldable pub write_new : ℕ × ℕ → Proc
  write_new (buf, size) = do
    clear_buffer c (u32 size)
    ask c (write_gpt 0 buf s_va (u32 size) 0 p_va)
    len ← gets (λ s. alignnum 2 16 s.hndshk.chk_gpt_prim_size)
    ask c (request (fix_gpt 1 s_va len 1))

  -- The primary table is read, made anew and written, and the secondary one is put right by it.
  unfoldable pub image_update_gpt : Proc
  unfolding new_table write_new
  image_update_gpt = do
    ask c (request check_gpt)
    len ← gets (λ s. alignnum 1 16 s.hndshk.chk_gpt_prim_size)
    clear_buffer c len
    ask c (request (read_gpt 0 s_va len p_va))
    calls (λ m. get_gpthdr m p_va gpthdr)
    table ← new_table c file
    write_new table

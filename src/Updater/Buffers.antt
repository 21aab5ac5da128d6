-- ===== src/Updater/Buffers.antt =====
-- Buffers in apps/rtss-updater/demo/src/rtss_updater_cmd.c: copying, filling, alignment, and the
-- entries for the images in the shared buffer. A C string is the list of its bytes, without NUL.
pub mod Runs
use rtss_mailbox_umd.Base.{
  ℕ, zero, suc, ◌+◌, ◌-◌, ◌*◌, ◌/◌, ◌%◌, Bool, true, false, ◌||◌, ◌==◌, if◌then◌else◌, u32, min,
  Option, none, some, List, [], ◌∷◌, take,
}
use rtss_mailbox_umd.Memory.{Memory, copy_run}
use rtss_mailbox_umd.Update.Message.{set_run, set_bytes, set_words}
use rtss_mailbox_umd.Updater.Command.{exit_success, exit_failure}

-- The loop of `rtss_updater_mcpy`, with `left` bytes to go from byte `c` on.
unfoldable pub mcpy_loop : ℕ → ℕ → Memory → ℕ → ℕ → Memory
mcpy_loop zero c m dst src = m
mcpy_loop (suc left) c m dst src = mcpy_loop left (c + 1) (copy_run m (dst + c) (src + c) 1) dst src

unfoldable pub mcpy : Memory → ℕ → ℕ → ℕ → ℕ → ℕ × Memory
mcpy m dst dst_size src src_size =
    let copy_size = min dst_size src_size in
    if dst == 0 || src == 0 then (0, m) else (copy_size, mcpy_loop copy_size 0 m dst src)

-- The loop of `rtss_updater_mset`.
unfoldable pub mset_loop : ℕ → ℕ → Memory → ℕ → ℕ → Memory
mset_loop zero c m dst val = m
mset_loop (suc left) c m dst val = mset_loop left (c + 1) (set_run m (dst + c) val 1) dst val

unfoldable pub mset : Memory → ℕ → ℕ → ℕ → Memory
mset m dst val dst_size = if dst == 0 then m else mset_loop dst_size 0 m dst val

-- sizeof(rtss_upd_image_entry_t), sizeof(rtss_upd_update_gpt_entry_t) and
-- sizeof(rtss_upd_img_digest_entry_t)
abbrev pub image_entry_size : ℕ
image_entry_size = 52

abbrev pub update_gpt_entry_size : ℕ
update_gpt_entry_size = 36

abbrev pub digest_entry_size : ℕ
digest_entry_size = 172

abbrev pub img_name_len : ℕ
img_name_len = 32

abbrev pub digest_max_len : ℕ
digest_max_len = 128

-- a name copied into a member of 32 bytes
abbrev pub put_name : Memory → ℕ → List ℕ → Memory
put_name m dst name = set_bytes m dst (take img_name_len name)

abbrev is_empty : List ℕ → Bool
is_empty [] = true
is_empty (c ∷ cs) = false

-- The loop over the names, one entry of `size` bytes for each; `fill` stores what follows the
-- name. A name that is empty ends it with a failure.
unfoldable pub populate_loop : List (List ℕ) → Memory → ℕ → ℕ → (Memory → ℕ → Memory) → ℕ × Memory
populate_loop [] m entry size fill = (exit_success, m)
populate_loop (name ∷ names) m entry size fill =
    let rest = populate_loop names (fill (put_name m entry name) entry) (entry + size) size fill in
    if is_empty name then (exit_failure, m) else rest

abbrev count_names : List (List ℕ) → ℕ
count_names [] = 0
count_names (x ∷ xs) = suc (count_names xs)

-- `none` stands for a configuration that is NULL.
abbrev populate : Option (List (List ℕ)) → Memory → ℕ → ℕ → (Memory → ℕ → Memory) → ℕ × Memory
populate none m va size fill = (exit_failure, m)
populate (some names) m va size fill =
    if va == 0
    then (exit_failure, m)
    else populate_loop names (mset m va 0 (size * count_names names)) va size fill

unfoldable pub populate_bl_info_context : Option (List (List ℕ)) → Memory → ℕ → ℕ × Memory
populate_bl_info_context names m va = populate names m va image_entry_size (λ m' e. m')

unfoldable pub populate_gpt_update_context : Option (List (List ℕ)) → Memory → ℕ → ℕ × Memory
populate_gpt_update_context names m va = populate names m va update_gpt_entry_size (λ m' e. m')

unfoldable pub populate_digest_context : Option (List (List ℕ)) → Memory → ℕ → ℕ → ℕ × Memory
populate_digest_context names m va partition =
    populate names m va digest_entry_size
      (λ m' e. set_words m' (e + img_name_len) (partition ∷ 0 ∷ digest_max_len ∷ []))

-- ((mult * num) + alignment - 1) & ~(alignment - 1), for an alignment that is a power of two
unfoldable pub alignnum : ℕ → ℕ → ℕ → ℕ
alignnum mult alignment num = u32 (u32 (mult * num) + alignment - 1) / alignment * alignment

-- What `rtss_updater_loadfile` appends to a file of `fsize` bytes.
unfoldable pub padding : ℕ → ℕ → ℕ
padding fsize alignment =
    let psize = fsize % alignment in if psize == 0 then 0 else alignment - psize

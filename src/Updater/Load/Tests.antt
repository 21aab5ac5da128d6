-- ===== src/Updater/Load/Tests.antt =====
-- A file and entries of the shared buffer, and runs of the theorems on them.
use rtss_mailbox_umd.Base.{
  ℕ, ◌+◌, ◌*◌, ◌%◌, ◌≤◌, ◌<◌, ◌≡◌, ◌⊎◌, refl, arith, true, some, List, [], ◌∷◌, get_or,
}
use rtss_mailbox_umd.Base.Int.{pos}
use rtss_mailbox_umd.Memory.{Memory}
use rtss_mailbox_umd.Updater.Entries.{get_bl_info_context, read_img_digest_context}
use rtss_mailbox_umd.Updater.Entries.Copied.{HasBytes, get_bl_info_context_copies}
use rtss_mailbox_umd.Updater.Entries.Bounded.{read_img_digest_context_bounded}
use rtss_mailbox_umd.Updater.Load.{File, loadfile}
use rtss_mailbox_umd.Updater.Load.Padded.{IsReadable, loadfile_pads}

abbrev pattern_memory : Memory
pattern_memory p = p % 251

-- a file of three bytes
abbrev small_file : List ℕ → File
small_file path = record {
  found = true;
  st_size = 3;
  owner_reads = true;
  opens = true;
  bytes = some (7 ∷ 8 ∷ 9 ∷ []);
}

small_file-IsReadable : IsReadable (small_file (47 ∷ [])) (7 ∷ 8 ∷ 9 ∷ [])
small_file-IsReadable = record {
  is_found = refl;
  is_owned = refl;
  is_opened = refl;
  delivered = refl;
  whole = refl;
}

loadfile_pads_example :
    let (r, m') = loadfile small_file pattern_memory (some (47 ∷ [])) 9000 64 in
    (len : ℕ) × (r ≡ pos len)
    × (3 ≤ len)
    × (len < 3 + 64)
    × (len % 64 ≡ 0)
    × ((k : ℕ) → k < 3 → m' (9000 + k) ≡ get_or (7 ∷ 8 ∷ 9 ∷ []) k 0 % 256)
    × ((k : ℕ) → 3 ≤ k → k < len → m' (9000 + k) ≡ 0)
    × ((p : ℕ) → (p < 9000) ⊎ (9000 + len ≤ p) → m' p ≡ pattern_memory p)
loadfile_pads_example =
    loadfile_pads pattern_memory 9000 64 (7 ∷ 8 ∷ 9 ∷ []) (omega arith) (omega arith) (omega arith)
      small_file (47 ∷ []) small_file-IsReadable

pattern_memory-HasBytes : HasBytes pattern_memory 9000 (52 * 2)
pattern_memory-HasBytes j h = omega arith

-- two entries
get_bl_info_context_copies_example :
    let (code, m') = get_bl_info_context pattern_memory 40000 9000 2 in
    (code ≡ 0)
    × ((j : ℕ) → j < 52 * 2 → m' (40000 + j) ≡ pattern_memory (9000 + j))
    × ((p : ℕ) → (p < 40000) ⊎ (40000 + 52 * 2 ≤ p) → m' p ≡ pattern_memory p)
get_bl_info_context_copies_example =
    get_bl_info_context_copies pattern_memory 40000 9000 2 (omega arith) (omega arith) (omega arith)
      (omega arith) pattern_memory-HasBytes

-- seven images are announced
read_img_digest_context_bounded_example :
    (read_img_digest_context pattern_memory 40000 9000 7).1 40860 ≡ pattern_memory 40860
read_img_digest_context_bounded_example =
    read_img_digest_context_bounded pattern_memory 40000 9000 7 40860 (omega arith)

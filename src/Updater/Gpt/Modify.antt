-- ===== src/Updater/Gpt/Modify.antt =====
-- What the header of a table is once `rtss_updater_modifygpt` has changed it.
use rtss_mailbox_umd.Base.{
  ℕ, ◌+◌, ◌-◌, ◌≤◌, ◌<◌, ◌≡◌, ◌⊎◌, refl, sym, ap, ◌∙◌, fun_ext, arith, true, dec_lt, some,
}
use rtss_mailbox_umd.Memory.{Memory, get_reg, set_reg, copy_run}
use rtss_mailbox_umd.Memory.Word.{
  Apart, get_reg-set_reg, set_reg-Apart, copy_run-Apart, copy_run_inside, get_reg_ext,
}
use rtss_mailbox_umd.Gpt.Crc.{Buffer, calc_crc32}
use rtss_mailbox_umd.Gpt.Crc.Bounds.{calc_crc32_bounded}
use rtss_mailbox_umd.Gpt.Partition.{
  le32, le64, header_sz, header_size, header_crc32, alternate_lba, zero_crc, verify_header_crc32,
}
use rtss_mailbox_umd.Updater.Gpt.{at, modify_header}

le32-at : (m : Memory) (a k : ℕ) → le32 (at m a) k ≡ get_reg m (a + k)
unfolding get_reg
le32-at m a k = omega (arith, here, next 1, next 2, third)
  where
    here : at m a k ≡ m (a + k)
    here = refl

    next : (i : ℕ) → at m a (k + i) ≡ m (a + k + i)
    next i = ap m (omega arith)

    third : at m a (k + 2 + 1) ≡ m (a + k + 3)
    third = ap m (omega arith)

le64_ext : (b c : Buffer) (a : ℕ) → ((k : ℕ) → a ≤ k → k < a + 8 → b k ≡ c k) → le64 b a ≡ le64 c a
le64_ext b c a h = omega (
  arith,
  h a (omega arith) (omega arith),
  h (a + 1) (omega arith) (omega arith),
  h (a + 2) (omega arith) (omega arith),
  h (a + 2 + 1) (omega arith) (omega arith),
  h (a + 4) (omega arith) (omega arith),
  h (a + 4 + 1) (omega arith) (omega arith),
  h (a + 4 + 2) (omega arith) (omega arith),
  h (a + 4 + 2 + 1) (omega arith) (omega arith),
)

stored_zero : (m : Memory) (a p : ℕ) → a ≤ p → p < a + 4 → set_reg m a 0 p ≡ 0
unfolding set_reg
stored_zero m a p l u = ground arith

module _ (m : Memory) (h g : ℕ) (clear : Apart h header_sz g header_sz) where
  -- the header before its checksum is put in
  abbrev unsealed : Memory
  unsealed = set_reg (copy_run (copy_run m (h + 32) (g + 32) 8) (h + 48) (g + 48) 8) (h + 16) 0

  abbrev crc : ℕ
  crc = calc_crc32 (some (at unsealed h)) (header_size (at unsealed h)) 0

  modified : modify_header m h g ≡ set_reg unsealed (h + 16) crc
  unfolding modify_header
  modified = refl

  kept :
      (p : ℕ)
      → (p < h + 16) ⊎ (h + 20 ≤ p)
      → (p < h + 32) ⊎ (h + 40 ≤ p)
      → (p < h + 48) ⊎ (h + 56 ≤ p)
      → modify_header m h g p ≡ m p
  kept p c a l = rw modified (
      set_reg-Apart unsealed (h + 16) crc p (omega arith)
      ∙ set_reg-Apart (copy_run (copy_run m (h + 32) (g + 32) 8) (h + 48) (g + 48) 8) (h + 16) 0 p
          (omega arith)
      ∙ copy_run-Apart (copy_run m (h + 32) (g + 32) 8) (h + 48) (g + 48) 8 p (omega arith)
      ∙ copy_run-Apart m (h + 32) (g + 32) 8 p (omega arith))

  alternate_byte : (k : ℕ) → 32 ≤ k → k < 40 → modify_header m h g (h + k) ≡ m (g + k)
  alternate_byte k l u = rw modified (
      set_reg-Apart unsealed (h + 16) crc (h + k) (omega arith)
      ∙ set_reg-Apart (copy_run (copy_run m (h + 32) (g + 32) 8) (h + 48) (g + 48) 8) (h + 16) 0
          (h + k) (omega arith)
      ∙ copy_run-Apart (copy_run m (h + 32) (g + 32) 8) (h + 48) (g + 48) 8 (h + k) (omega arith)
      ∙ copy_run_inside m (h + 32) (g + 32) 8 (h + k) (omega arith) (omega arith)
      ∙ ap m (omega arith))

  last_usable_byte : (k : ℕ) → 48 ≤ k → k < 56 → modify_header m h g (h + k) ≡ m (g + k)
  last_usable_byte k l u = rw modified (
      set_reg-Apart unsealed (h + 16) crc (h + k) (omega arith)
      ∙ set_reg-Apart (copy_run (copy_run m (h + 32) (g + 32) 8) (h + 48) (g + 48) 8) (h + 16) 0
          (h + k) (omega arith)
      ∙ copy_run_inside (copy_run m (h + 32) (g + 32) 8) (h + 48) (g + 48) 8 (h + k) (omega arith)
          (omega arith)
      ∙ copy_run-Apart m (h + 32) (g + 32) 8 (g + 48 + (h + k - (h + 48))) (omega arith)
      ∙ ap m (omega arith))

  same_outside : (p : ℕ) → (p < h + 16) ⊎ (h + 20 ≤ p) → modify_header m h g p ≡ unsealed p
  same_outside p out = rw modified (set_reg-Apart unsealed (h + 16) crc p (omega arith))

  size_kept :
      (header_size (at (modify_header m h g) h) ≡ header_size (at m h))
      × (header_size (at (modify_header m h g) h) ≡ header_size (at unsealed h))
  size_kept = (
    le32-at (modify_header m h g) h 12
        ∙ get_reg_ext (modify_header m h g) m (h + 12)
            (λ p l u. kept p (omega arith) (omega arith) (omega arith))
        ∙ sym (le32-at m h 12),
    le32-at (modify_header m h g) h 12
        ∙ get_reg_ext (modify_header m h g) unsealed (h + 12)
            (λ p l u. same_outside p (omega arith))
        ∙ sym (le32-at unsealed h 12),
  )

  zeroed : zero_crc (at (modify_header m h g) h) ≡ at unsealed h
  zeroed = fun_ext (λ k. elim (dec_lt k 16) [
    | yes below ↦ ground (arith, same_outside (h + k) (omega arith))
    | no from ↦ elim (dec_lt k 20) [
      | yes inside ↦ ground (
        arith,
        stored_zero (copy_run (copy_run m (h + 32) (g + 32) 8) (h + 48) (g + 48) 8) (h + 16) (h + k)
            (omega arith) (omega arith),
      )
      | no behind ↦ ground (arith, same_outside (h + k) (omega arith))
    ]
  ])

  crc_held : header_crc32 (at (modify_header m h g) h) ≡ crc
  crc_held =
      le32-at (modify_header m h g) h 16
      ∙ rw modified (
          get_reg-set_reg unsealed (h + 16) crc
            (calc_crc32_bounded (at unsealed h) (header_size (at unsealed h))))

  crc_computed :
      calc_crc32
        (some (zero_crc (at (modify_header m h g) h)))
        (header_size (at (modify_header m h g) h))
        0
      ≡ crc
  crc_computed = rw (zeroed, size_kept.1) refl

  alternate_held : alternate_lba (at (modify_header m h g) h) ≡ alternate_lba (at m g)
  alternate_held = le64_ext (at (modify_header m h g) h) (at m g) 32 alternate_byte

  -- The changed header, where it is no larger than its structure and does not meet the header on the
  -- flash, has a checksum that the GPT library accepts; its alternate block and its last usable
  -- block are the ones of the header on the flash, and all else stands as in the file.
  pub modify_header_verified :
      header_size (at m h) ≤ header_sz
      → let m' = modify_header m h g in
        (verify_header_crc32 (at m' h) 0 ≡ true)
        × (alternate_lba (at m' h) ≡ alternate_lba (at m g))
        × (le64 (at m' h) 48 ≡ le64 (at m g) 48)
        × ((p : ℕ)
            → (p < h + 16) ⊎ (h + 20 ≤ p)
            → (p < h + 32) ⊎ (h + 40 ≤ p)
            → (p < h + 48) ⊎ (h + 56 ≤ p)
            → m' p ≡ m p)
  unfolding verify_header_crc32
  modify_header_verified fits = (
    ground (arith, size_kept.0, crc_held, crc_computed),
    alternate_held,
    le64_ext (at (modify_header m h g) h) (at m g) 48 last_usable_byte,
    kept,
  )

-- ===== src/Updater/Entries/Copied.antt =====
-- What `rtss_updater_get_bl_info_context` copies.
use rtss_mailbox_umd.Base.{
  ℕ, zero, suc, ◌+◌, ◌-◌, ◌*◌, ◌≤◌, ◌<◌, ◌≡◌, ◌≢◌, ◌⊎◌, inl, inr, refl, ap, ◌∙◌, arith, dec_lt,
}
use rtss_mailbox_umd.Memory.{Memory, get_reg, set_reg, copy_run}
use rtss_mailbox_umd.Memory.Word.{Apart, copy_run-Apart, copy_run_inside}
use rtss_mailbox_umd.Update.Message.{set_run}
use rtss_mailbox_umd.Updater.Buffers.{mcpy}
use rtss_mailbox_umd.Updater.Buffers.Runs.{mcpy-copy_run}
use rtss_mailbox_umd.Updater.Command.{exit_success}
use rtss_mailbox_umd.Updater.Entries.{
  copy_word, copy_name, copy_image_entry, bl_info_loop, get_bl_info_context,
}

-- A byte is stored at each of the `n` addresses from `a` on.
abbrev pub HasBytes : Memory → ℕ → ℕ → Type 0
HasBytes m a n = (j : ℕ) → j < n → m (a + j) < 256

-- Outside the `n` bytes at `to` nothing has changed, and those with the property have been copied.
abbrev pub Moved : (ℕ → Type 0) → Memory → Memory → ℕ → ℕ → ℕ → Type 0
Moved P m m' to from n =
    ((p : ℕ) → (p < to) ⊎ (to + n ≤ p) → m' p ≡ m p)
    × ((j : ℕ) → j < n → P j → m' (to + j) ≡ m (from + j))

-- A word is copied as its four bytes.
copy_word-copy_run :
    (m : Memory) (to from k : ℕ)
    → HasBytes m (from + k) 4
    → (p : ℕ) → copy_word m to from k p ≡ copy_run m (to + k) (from + k) 4 p
unfolding copy_word set_reg get_reg copy_run
copy_word-copy_run m to from k b p =
    let b0 = b 0 (omega arith) in
    let b1 = b 1 (omega arith) in
    let b2 = b 2 (omega arith) in let b3 = b 3 (omega arith) in ground arith

module _ (m : Memory) (to from : ℕ) (apart : Apart to 52 from 52) (b : HasBytes m from 52) where
  source_kept :
      (P : ℕ → Type 0) (m' : Memory)
      → Moved P m m' to from 52
      → (j : ℕ) → j < 52
      → m' (from + j) ≡ m (from + j)
  source_kept P m' moved j u = moved.0 (from + j) (omega arith)

  copy_word-Moved :
      (P : ℕ → Type 0) (m' : Memory) (k : ℕ)
      → k + 4 ≤ 52
      → Moved P m m' to from 52
      → Moved (λ j. P j ⊎ ((k ≤ j) × (j < k + 4))) m (copy_word m' to from k) to from 52
  copy_word-Moved P m' k u moved = (
    λ p out. run p ∙ copy_run-Apart m' (to + k) (from + k) 4 p (omega arith) ∙ moved.0 p out,
    λ j v s. run (to + j) ∙ inside j v s,
  )
    where
      run : (p : ℕ) → copy_word m' to from k p ≡ copy_run m' (to + k) (from + k) 4 p
      run = copy_word-copy_run m' to from k (λ j v.
          let e : from + k + j ≡ from + (k + j) = omega arith in
          rw (e, source_kept P m' moved (k + j) (omega arith)) (b (k + j) (omega arith)))

      inside :
          (j : ℕ)
          → j < 52
          → P j ⊎ ((k ≤ j) × (j < k + 4))
          → copy_run m' (to + k) (from + k) 4 (to + j) ≡ m (from + j)
      inside j v s = elim (dec_lt j k) [
        | yes low ↦
            copy_run-Apart m' (to + k) (from + k) 4 (to + j) (omega arith) ∙ earlier j v s low
        | no high ↦ elim (dec_lt j (k + 4)) [
          | yes here ↦
              copy_run_inside m' (to + k) (from + k) 4 (to + j) (omega arith) (omega arith)
              ∙ ap m' (omega arith)
              ∙ source_kept P m' moved j v
          | no behind ↦
              copy_run-Apart m' (to + k) (from + k) 4 (to + j) (omega arith) ∙ later j v s behind
        ]
      ]
        where
          earlier :
              (j : ℕ) → j < 52 → P j ⊎ ((k ≤ j) × (j < k + 4)) → j < k → m' (to + j) ≡ m (from + j)
          earlier j v (inl s) low = moved.1 j v s
          earlier j v (inr s) low = absurd (omega arith)

          later :
              (j : ℕ)
              → j < 52
              → P j ⊎ ((k ≤ j) × (j < k + 4))
              → ¬ (j < k + 4)
              → m' (to + j) ≡ m (from + j)
          later j v (inl s) high = moved.1 j v s
          later j v (inr s) high = absurd (omega arith)

  abbrev cleared : Memory
  cleared = set_run m to 0 32

  copy_name-Moved : to ≢ 0 → from ≢ 0 → Moved (λ j. j < 32) m (copy_name m to from) to from 52
  unfolding copy_name set_run
  copy_name-Moved to_ok from_ok = (
    λ p out. run p ∙ copy_run-Apart cleared to from 32 p (omega arith) ∙ ground arith,
    λ j v s.
        run (to + j)
        ∙ copy_run_inside cleared to from 32 (to + j) (omega arith) (omega arith)
        ∙ (let e : from + (to + j - to) ≡ from + j = omega arith in rw e (ground arith)),
  )
    where
      run : (p : ℕ) → (mcpy cleared to 32 from 32).1 p ≡ copy_run cleared to from 32 p
      run = (mcpy-copy_run cleared to 32 from 32 to_ok from_ok (omega arith)).1

  copy_image_entry-Moved :
      to ≢ 0 → from ≢ 0 → Moved (λ j. j < 52) m (copy_image_entry m to from) to from 52
  unfolding copy_image_entry
  copy_image_entry-Moved to_ok from_ok =
      let d0 = copy_name-Moved to_ok from_ok in
      let d1 = copy_word-Moved _ _ 36 (omega arith) d0 in
      let d2 = copy_word-Moved _ _ 32 (omega arith) d1 in
      let d3 = copy_word-Moved _ _ 40 (omega arith) d2 in
      let d4 = copy_word-Moved _ _ 44 (omega arith) d3 in
      let d5 = copy_word-Moved _ _ 48 (omega arith) d4 in (d5.0, λ j v s. d5.1 j v (omega arith))

-- One entry, and those behind it.
entries_joined :
    (n : ℕ) (m m1 m' : Memory) (to from : ℕ)
    → Apart to (52 * suc n) from (52 * suc n)
    → Moved (λ j. j < 52) m m1 to from 52
    → Moved (λ j. j < 52 * n) m1 m' (to + 52) (from + 52) (52 * n)
    → Moved (λ j. j < 52 * suc n) m m' to from (52 * suc n)
entries_joined n m m1 m' to from apart first rest =
    (λ p out. rest.0 p (omega arith) ∙ first.0 p (omega arith), inside)
  where
    inside : (j : ℕ) → j < 52 * suc n → j < 52 * suc n → m' (to + j) ≡ m (from + j)
    inside j v s = elim (dec_lt j 52) [
      | yes low ↦ rest.0 (to + j) (omega arith) ∙ first.1 j low low
      | no high ↦
          ap m' (let e : to + j ≡ to + 52 + (j - 52) = omega arith in e)
          ∙ rest.1 (j - 52) (omega arith) (omega arith)
          ∙ ap m1 (let e : from + 52 + (j - 52) ≡ from + j = omega arith in e)
          ∙ first.0 (from + j) (omega arith)
    ]

bl_info_loop-Moved :
    (n : ℕ) (m : Memory) (to from : ℕ)
    → to ≢ 0
    → from ≢ 0
    → Apart to (52 * n) from (52 * n)
    → HasBytes m from (52 * n)
    → Moved (λ j. j < 52 * n) m (bl_info_loop n m to from) to from (52 * n)
unfolding bl_info_loop
bl_info_loop-Moved zero m to from to_ok from_ok apart b =
    (λ p out. refl, λ j v s. absurd (omega arith))
bl_info_loop-Moved (suc n) m to from to_ok from_ok apart b =
    let first =
      copy_image_entry-Moved m to from (omega arith) (λ j u. b j (omega arith)) to_ok from_ok in
    let left : HasBytes (copy_image_entry m to from) (from + 52) (52 * n) = (λ j u.
      let e : from + 52 + j ≡ from + (52 + j) = omega arith in
      rw (e, first.0 (from + (52 + j)) (omega arith)) (b (52 + j) (omega arith))) in
    entries_joined n m (copy_image_entry m to from)
      (bl_info_loop n (copy_image_entry m to from) (to + 52) (from + 52)) to from apart first
      (bl_info_loop-Moved n (copy_image_entry m to from) (to + 52) (from + 52) (omega arith)
        (omega arith) (omega arith) left)

-- `rtss_updater_get_bl_info_context` copies as many whole entries as it is told to, byte by byte, and
-- changes nothing else. It does not know how many the array has room for.
pub get_bl_info_context_copies :
    (m : Memory) (array va num : ℕ)
    → array ≢ 0
    → va ≢ 0
    → num ≢ 0
    → Apart array (52 * num) va (52 * num)
    → HasBytes m va (52 * num)
    → let (code, m') = get_bl_info_context m array va num in
      (code ≡ exit_success)
      × ((j : ℕ) → j < 52 * num → m' (array + j) ≡ m (va + j))
      × ((p : ℕ) → (p < array) ⊎ (array + 52 * num ≤ p) → m' p ≡ m p)
unfolding get_bl_info_context
get_bl_info_context_copies m array va num array_ok va_ok num_ok apart b =
    let moved = bl_info_loop-Moved num m array va array_ok va_ok apart b in
    let shut = moved.0 in
    (ground arith, λ j u. ground (arith, moved.1 j u u), λ p out. ground (arith, moved.0 p out))

-- ===== src/Mailbox/Ring/Get.antt =====
-- A run of items copied out of the ring, in two parts where it passes the end.
use native.Mathlib.Nat.{mod-eq_of_lt}
use rtss_mailbox_umd.Base.{
  ℕ, ◌+◌, ◌-◌, ◌*◌, ◌%◌, ◌≤◌, ◌<◌, ◌≡◌, ◌⊎◌, inl, ap, ◌∙◌, arith, ltb, if◌then◌else◌, dec_lt,
  lt→ltb, le→ltb,
}
use rtss_mailbox_umd.Memory.{Memory, copy_run}
use rtss_mailbox_umd.Memory.Word.{Apart, copy_run-Apart}
use rtss_mailbox_umd.Mailbox.Ring.Item.{
  item, item_ext, item-copy_run_outside, item-copy_run_inside, item_shift,
}
use rtss_mailbox_umd.Mailbox.Ring.Put.{mod_over, mul_split}

-- `n` items of the ring of `cap` items at `a`, from slot `r` on, copied to `dest`.
unfoldable pub get : Memory → ℕ → ℕ → ℕ → ℕ → ℕ → ℕ → Memory
get m a size cap dest r n =
    if ltb cap (r + n)
    then copy_run (copy_run m dest (a + r * size) ((cap - r) * size)) (dest + (cap - r) * size) a
        ((r + n - cap) * size)
    else copy_run m dest (a + r * size) (n * size)

module _ (m : Memory) (a size cap dest r n : ℕ) where
  -- the first of two parts, its start written as that of an array at `dest`
  abbrev first_out : Memory
  first_out = copy_run m (dest + 0 * size) (a + r * size) ((cap - r) * size)

  get_past :
      cap < r + n
      → get m a size cap dest r n
        ≡ copy_run first_out (dest + (cap - r) * size) a ((r + n - cap) * size)
  unfolding get
  get_past h = rw (lt→ltb cap (r + n) h) (
      ap
        (λ (d : ℕ).
          copy_run (copy_run m d (a + r * size) ((cap - r) * size)) (dest + (cap - r) * size) a
            ((r + n - cap) * size))
        (omega arith))

  get_short :
      r + n ≤ cap
      → get m a size cap dest r n ≡ copy_run m (dest + 0 * size) (a + r * size) (n * size)
  unfolding get
  get_short h =
      rw (le→ltb (r + n) cap h)
        (ap (λ (d : ℕ). copy_run m d (a + r * size) (n * size)) (omega arith))

  -- The items that come out are those of the slots, in order round the ring.
  pub item-get :
      (j : ℕ)
      → r < cap
      → n ≤ cap
      → Apart dest (n * size) a (cap * size)
      → j < n
      → item (get m a size cap dest r n) dest size j ≡ item m a size ((r + j) % cap)
  item-get j r_in n_in apart h = elim (dec_lt cap (r + n)) [
    | no short ↦
        rw (get_short (omega arith), mod-eq_of_lt {n = r + j} {m = cap} (omega arith))
          (item-copy_run_inside m dest size (a + r * size) 0 n j (omega arith) (omega arith)
            ∙ item_shift m a size r (j - 0)
            ∙ ap (item m a size) (omega arith))
    | yes past ↦ elim (dec_lt (r + j) cap) [
      | yes before ↦
          rw (get_past past, mod-eq_of_lt {n = r + j} {m = cap} before)
            (item-copy_run_outside first_out dest size a (cap - r) (r + n - cap) j
                (inl (omega arith))
              ∙ item-copy_run_inside m dest size (a + r * size) 0 (cap - r) j (omega arith)
                  (omega arith)
              ∙ item_shift m a size r (j - 0)
              ∙ ap (item m a size) (omega arith))
      | no behind ↦
          rw (get_past past, mod_over (r + j) cap (omega arith) (omega arith))
            (item-copy_run_inside first_out dest size a (cap - r) (r + n - cap) j (omega arith)
                (omega arith)
              ∙ item_ext first_out m a size cap (j - (cap - r)) (omega arith) (λ p l u.
                copy_run-Apart m (dest + 0 * size) (a + r * size) ((cap - r) * size) p
                  (out_apart p apart past l u))
              ∙ ap (item m a size) (omega arith))
    ]
  ]
    where
      out_apart :
          (p : ℕ)
          → Apart dest (n * size) a (cap * size)
          → cap < r + n
          → a ≤ p
          → p < a + cap * size
          → (p < dest + 0 * size) ⊎ (dest + 0 * size + (cap - r) * size ≤ p)
      out_apart p apart past l u = omega (
        arith,
        apart,
        mul_split (cap - r) (r + n - cap) n size (omega arith),
        mul_split r (cap - r) cap size (omega arith),
      )

-- Nothing outside the destination changes.
pub get-frame :
    (m : Memory) (a size cap dest r n p : ℕ)
    → r < cap
    → n ≤ cap
    → (p < dest) ⊎ (dest + n * size ≤ p)
    → get m a size cap dest r n p ≡ m p
get-frame m a size cap dest r n p r_in n_in out = elim (dec_lt cap (r + n)) [
  | no short ↦
      rw (get_short m a size cap dest r n (omega arith))
        (copy_run-Apart m (dest + 0 * size) (a + r * size) (n * size) p (omega (arith, out)))
  | yes past ↦ rw (get_past m a size cap dest r n past) (
      copy_run-Apart (first_out m a size cap dest r n) (dest + (cap - r) * size) a
        ((r + n - cap) * size) p
        (omega (arith, mul_split (cap - r) (r + n - cap) n size (omega arith), out))
      ∙ copy_run-Apart m (dest + 0 * size) (a + r * size) ((cap - r) * size) p
          (omega (arith, mul_split (cap - r) (r + n - cap) n size (omega arith), out)))
]

-- ===== src/Mailbox/Ring/Item.antt =====
-- An array of items of one size, and what a copy into it does to each item.
use rtss_mailbox_umd.Base.{
  ℕ, ◌+◌, ◌-◌, ◌*◌, ◌≤◌, ◌<◌, ◌≡◌, ◌⊎◌, inl, inr, ap, ◌∙◌, arith, List, tabulate, tabulate_ext,
}
use rtss_mailbox_umd.Memory.{Memory, copy_run}
use rtss_mailbox_umd.Memory.Word.{copy_run-Apart, copy_run_inside}

-- The bytes of item `s` of the array at `a`.
abbrev pub item : Memory → ℕ → ℕ → ℕ → List ℕ
item m a size s = tabulate size (λ k. m (a + s * size + k))

-- The first `n` items of the array at `a`.
abbrev pub items : Memory → ℕ → ℕ → ℕ → List (List ℕ)
items m a size n = tabulate n (item m a size)

pub mul_step : (s w size : ℕ) → s < w → s * size + size ≤ w * size
mul_step s w size h = grind arith

pub mul_mono : (a b size : ℕ) → a ≤ b → a * size ≤ b * size
mul_mono a b size h = grind arith

-- An item depends on the bytes of its array alone.
pub item_ext :
    (m m' : Memory) (a size cap s : ℕ)
    → s < cap
    → ((p : ℕ) → a ≤ p → p < a + cap * size → m p ≡ m' p)
    → item m a size s ≡ item m' a size s
item_ext m m' a size cap s h same =
    tabulate_ext size (λ k. m (a + s * size + k)) (λ k. m' (a + s * size + k))
      (λ k hk. same (a + s * size + k) (omega arith) (omega (arith, mul_step s cap size h)))

pub item-copy_run_outside :
    (m : Memory) (a size src w c s : ℕ)
    → (s < w) ⊎ (w + c ≤ s)
    → item (copy_run m (a + w * size) src (c * size)) a size s ≡ item m a size s
item-copy_run_outside m a size src w c s h =
    tabulate_ext size (λ k. copy_run m (a + w * size) src (c * size) (a + s * size + k))
      (λ k. m (a + s * size + k))
      (λ k hk. copy_run-Apart m (a + w * size) src (c * size) (a + s * size + k) (apart k hk h))
  where
    apart :
        (k : ℕ)
        → k < size
        → (s < w) ⊎ (w + c ≤ s)
        → (a + s * size + k < a + w * size) ⊎ (a + w * size + c * size ≤ a + s * size + k)
    apart k hk (inl p) = inl (omega (arith, mul_step s w size p))
    apart k hk (inr p) = inr (omega (arith, mul_mono (w + c) s size p))

pub item-copy_run_inside :
    (m : Memory) (a size src w c s : ℕ)
    → w ≤ s
    → s < w + c
    → item (copy_run m (a + w * size) src (c * size)) a size s ≡ item m src size (s - w)
item-copy_run_inside m a size src w c s l u =
    tabulate_ext size (λ k. copy_run m (a + w * size) src (c * size) (a + s * size + k))
      (λ k. m (src + (s - w) * size + k))
      (λ k hk.
        copy_run_inside m (a + w * size) src (c * size) (a + s * size + k) (omega (arith, low))
          (omega (arith, low, mul_step (s - w) c size (omega arith)))
        ∙ ap m (omega (arith, low)))
  where
    low : s * size ≡ w * size + (s - w) * size
    low = let e : s ≡ w + (s - w) = omega arith in omega (arith, ap (λ (t : ℕ). t * size) e)

-- Counting from item `t` on.
pub item_shift :
    (m : Memory) (a size t k : ℕ) → item m (a + t * size) size k ≡ item m a size (t + k)
item_shift m a size t k =
    tabulate_ext size (λ i. m (a + t * size + k * size + i)) (λ i. m (a + (t + k) * size + i))
      (λ i h. ap m (omega arith))

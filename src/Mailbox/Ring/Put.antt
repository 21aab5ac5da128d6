-- ===== src/Mailbox/Ring/Put.antt =====
-- A run of items copied into the ring, in two parts where it passes the end.
use native.Mathlib.Nat.{mod-eq_of_lt, mod-eq-sub-mod}
use rtss_mailbox_umd.Base.{
  ℕ, ◌+◌, ◌-◌, ◌*◌, ◌%◌, ◌≤◌, ◌<◌, ◌≡◌, ◌≢◌, ◌⊎◌, inl, inr, ap, ◌∙◌, arith, ltb, if◌then◌else◌,
  dec_lt, lt→ltb, le→ltb,
}
use rtss_mailbox_umd.Memory.{Memory, copy_run}
use rtss_mailbox_umd.Memory.Word.{Apart, copy_run-Apart}
use rtss_mailbox_umd.Mailbox.Ring.Item.{
  item, item_ext, item-copy_run_outside, item-copy_run_inside, item_shift, mul_mono,
}

pub mod_over : (x n : ℕ) → n ≤ x → x < n + n → x % n ≡ x - n
mod_over x n l u = mod-eq-sub-mod {n = x} {m = n} l ∙ mod-eq_of_lt {n = x - n} {m = n} (omega arith)

pub mul_split : (x y z size : ℕ) → x + y ≡ z → x * size + y * size ≡ z * size
mul_split x y z size e = omega (arith, ap (λ (t : ℕ). t * size) e)

-- `n` items from `src` on, put into the ring of `cap` items at `a` from slot `w` on.
unfoldable pub put : Memory → ℕ → ℕ → ℕ → ℕ → ℕ → ℕ → Memory
put m a size cap src w n =
    if ltb cap (w + n)
    then copy_run (copy_run m (a + w * size) src ((cap - w) * size)) a (src + (cap - w) * size)
        ((w + n - cap) * size)
    else copy_run m (a + w * size) src (n * size)

module _ (m : Memory) (a size cap src w n : ℕ) where
  -- the first of two parts
  abbrev first : Memory
  first = copy_run m (a + w * size) src ((cap - w) * size)

  put_past :
      cap < w + n
      → put m a size cap src w n
        ≡ copy_run first (a + 0 * size) (src + (cap - w) * size) ((w + n - cap) * size)
  unfolding put
  put_past h = rw (lt→ltb cap (w + n) h) (
      ap (λ (d : ℕ). copy_run first d (src + (cap - w) * size) ((w + n - cap) * size))
        (omega arith))

  put_short : w + n ≤ cap → put m a size cap src w n ≡ copy_run m (a + w * size) src (n * size)
  unfolding put
  put_short h = rw (le→ltb (w + n) cap h)

  module _ (w_in : w < cap) (n_in : n ≤ cap) where
    source_clear :
        (p : ℕ)
        → Apart src (n * size) a (cap * size)
        → cap < w + n
        → src + (cap - w) * size ≤ p
        → p < src + (cap - w) * size + (w + n - cap) * size
        → (p < a + w * size) ⊎ (a + w * size + (cap - w) * size ≤ p)
    source_clear p apart past l u = omega (
      arith,
      apart,
      mul_split (cap - w) (w + n - cap) n size (omega arith),
      mul_split w (cap - w) cap size (omega arith),
    )

    -- An item put into the ring is in its slot.
    pub item-put_new :
        (j : ℕ)
        → Apart src (n * size) a (cap * size)
        → j < n
        → item (put m a size cap src w n) a size ((w + j) % cap) ≡ item m src size j
    item-put_new j apart h = elim (dec_lt cap (w + n)) [
      | no short ↦
          rw (put_short (omega arith), mod-eq_of_lt {n = w + j} {m = cap} (omega arith))
            (item-copy_run_inside m a size src w n (w + j) (omega arith) (omega arith)
              ∙ ap (item m src size) (omega arith))
      | yes past ↦ elim (dec_lt (w + j) cap) [
        | yes before ↦
            rw (put_past past, mod-eq_of_lt {n = w + j} {m = cap} before)
              (item-copy_run_outside first a size (src + (cap - w) * size) 0 (w + n - cap) (w + j)
                  (inr (omega arith))
                ∙ item-copy_run_inside m a size src w (cap - w) (w + j) (omega arith) (omega arith)
                ∙ ap (item m src size) (omega arith))
        | no behind ↦
            rw (put_past past, mod_over (w + j) cap (omega arith) (omega arith))
              (item-copy_run_inside first a size (src + (cap - w) * size) 0 (w + n - cap)
                  (w + j - cap) (omega arith) (omega arith)
                ∙ item_ext first m (src + (cap - w) * size) size (w + n - cap) (w + j - cap - 0)
                    (omega arith)
                    (λ p l u.
                      copy_run-Apart m (a + w * size) src ((cap - w) * size) p
                        (source_clear p apart past l u))
                ∙ item_shift m src size (cap - w) (w + j - cap - 0)
                ∙ ap (item m src size) (omega arith))
      ]
    ]

    -- The other slots keep theirs.
    pub item-put_old :
        (s : ℕ)
        → s < cap
        → ((j : ℕ) → j < n → (w + j) % cap ≢ s)
        → item (put m a size cap src w n) a size s ≡ item m a size s
    item-put_old s s_in other = elim (dec_lt cap (w + n)) [
      | no short ↦
          rw (put_short (omega arith))
            (item-copy_run_outside m a size src w n s (around (omega arith)))
      | yes past ↦ rw (put_past past) (
          item-copy_run_outside first a size (src + (cap - w) * size) 0 (w + n - cap) s
            (inr (above past))
          ∙ item-copy_run_outside m a size src w (cap - w) s (inl (below past)))
    ]
      where
        hit : (j : ℕ) → j < n → w + j ≢ s
        hit j h e = other j h (rw e (mod-eq_of_lt {n = s} {m = cap} s_in))

        hit_past : (j : ℕ) → j < n → w + j ≢ s + cap
        hit_past j h e =
            other j h (rw e (mod_over (s + cap) cap (omega arith) (omega arith) ∙ omega arith))

        around : w + n ≤ cap → (s < w) ⊎ (w + n ≤ s)
        around short = elim (dec_lt s w) [ yes p ↦ inl p | no p ↦ inr (grind (arith, hit (s - w))) ]

        above : cap < w + n → 0 + (w + n - cap) ≤ s
        above past = grind (arith, hit_past (s + cap - w))

        below : cap < w + n → s < w
        below past = omega (arith, hit (s - w))

-- Nothing outside the ring changes.
pub put-frame :
    (m : Memory) (a size cap src w n p : ℕ)
    → w < cap
    → n ≤ cap
    → (p < a) ⊎ (a + cap * size ≤ p)
    → put m a size cap src w n p ≡ m p
put-frame m a size cap src w n p w_in n_in out = elim (dec_lt cap (w + n)) [
  | no short ↦ rw (put_short m a size cap src w n (omega arith)) (
      copy_run-Apart m (a + w * size) src (n * size) p
        (omega (arith, mul_mono (w + n) cap size (omega arith), out)))
  | yes past ↦ rw (put_past m a size cap src w n past) (
      copy_run-Apart (first m a size cap src w n) (a + 0 * size) (src + (cap - w) * size)
        ((w + n - cap) * size) p (omega (arith, mul_mono (w + n - cap) cap size (omega arith), out))
      ∙ copy_run-Apart m (a + w * size) src ((cap - w) * size) p
          (omega (arith, mul_split w (cap - w) cap size (omega arith), out)))
]

-- ===== src/Mailbox/Access/Frame.antt =====
-- What lies outside an open sub-region does not matter to it.
use native.Mathlib.Nat.{mod-lt}
use rtss_mailbox_umd.Base.{ℕ, ◌+◌, ◌*◌, ◌%◌, ◌≤◌, ◌<◌, ◌≡◌, ◌⊎◌, arith, tabulate_ext}
use rtss_mailbox_umd.Memory.{Memory, get_reg}
use rtss_mailbox_umd.Memory.Word.{get_reg_ext}
use rtss_mailbox_umd.Mailbox.Layout.MbDesc
use rtss_mailbox_umd.Mailbox.Ring.Item.{item, item_ext}
use rtss_mailbox_umd.Mailbox.Ring.Contents.{
  capacity, item_size, out_index, item_count, contents, ring_base, IsSane,
}
use rtss_mailbox_umd.Mailbox.Access.{sub_region_base}
use rtss_mailbox_umd.Mailbox.Access.Open.{IsOpen, queue, queue_cap, queue_size, IsOpen-kept}

-- Two memories that agree from the header of the mailbox to the end of the sub-region.
abbrev pub SameRegion : Memory → Memory → ℕ → ℕ → Type 0
SameRegion m m' mb i =
    (p : ℕ)
    → mb ≤ p
    → p
      < mb
        + get_reg m (MbDesc.sub_region_start_offset mb i)
        + 56
        + queue_cap m mb i * queue_size m mb i
    → m' p ≡ m p

-- Two memories that agree on the header up to the entry of the sub-region, and on the sub-region.
abbrev pub SamePlaces : Memory → Memory → ℕ → ℕ → Type 0
SamePlaces m m' mb i =
    (p : ℕ)
    → ((mb ≤ p) × (p < mb + 40 + 8 * i))
      ⊎ ((sub_region_base m mb i ≤ p)
          × (p < sub_region_base m mb i + 56 + queue_cap m mb i * queue_size m mb i))
    → m' p ≡ m p

module _ (m m' : Memory) (mb i : ℕ) (o : IsOpen m mb i) (same : SamePlaces m m' mb i) where
  abbrev base : ℕ
  base = sub_region_base m mb i

  reg : (a : ℕ) → base ≤ a → a + 4 ≤ base + 56 → get_reg m' a ≡ get_reg m a
  reg a l u = get_reg_ext m' m a (λ p l' u'. same p (omega arith))

  sane' : IsSane m' base
  sane' = record {
    not_null = o.sane.not_null;
    capacity_small = rw (reg (base + 40) (omega arith) (omega arith)) o.sane.capacity_small;
    size_small = rw (reg (base + 44) (omega arith) (omega arith)) o.sane.size_small;
    in_range =
        rw
          (reg (base + 40) (omega arith) (omega arith), reg (base + 48) (omega arith) (omega arith))
          o.sane.in_range;
    out_range =
        rw
          (reg (base + 40) (omega arith) (omega arith), reg (base + 52) (omega arith) (omega arith))
          o.sane.out_range;
  }

  kept : (sub_region_base m' mb i ≡ base) × IsOpen m' mb i
  kept =
      IsOpen-kept m m' mb i o (λ p l u. same p (omega arith))
        (reg (base + 40) (omega arith) (omega arith)) (reg (base + 44) (omega arith) (omega arith))
        sane'

  slot_same :
      (s : ℕ)
      → s < capacity m base
      → item m' (ring_base m base) (item_size m base) s
        ≡ item m (ring_base m base) (item_size m base) s
  slot_same s h =
      item_ext m' m (ring_base m base) (item_size m base) (capacity m base) s h
        (λ p l u. same p (omega arith))

  contents_same : contents m' base ≡ contents m base
  contents_same =
      rw
        (
          reg (base + 40) (omega arith) (omega arith),
          reg (base + 44) (omega arith) (omega arith),
          reg (base + 48) (omega arith) (omega arith),
          reg (base + 52) (omega arith) (omega arith),
        )
        (tabulate_ext (item_count m base) _ _ (λ j h.
          slot_same ((out_index m base + j) % capacity m base)
            (mod-lt (out_index m base + j) (omega (arith, o.sane)))))

  -- The sub-region is open in the other memory too, in its place, with its capacity, its item size
  -- and its queue.
  pub places_kept :
      IsOpen m' mb i
      × (sub_region_base m' mb i ≡ sub_region_base m mb i)
      × (queue_cap m' mb i ≡ queue_cap m mb i)
      × (queue_size m' mb i ≡ queue_size m mb i)
      × (queue m' mb i ≡ queue m mb i)
  places_kept = (
    kept.1,
    kept.0,
    rw kept.0 (reg (base + 40) (omega arith) (omega arith)),
    rw kept.0 (reg (base + 44) (omega arith) (omega arith)),
    rw kept.0 contents_same,
  )

-- The same, for memories that agree on all that lies between.
pub region_kept :
    (m m' : Memory) (mb i : ℕ)
    → IsOpen m mb i
    → SameRegion m m' mb i
    → IsOpen m' mb i
      × (sub_region_base m' mb i ≡ sub_region_base m mb i)
      × (queue_cap m' mb i ≡ queue_cap m mb i)
      × (queue_size m' mb i ≡ queue_size m mb i)
      × (queue m' mb i ≡ queue m mb i)
region_kept m m' mb i o same =
    places_kept m m' mb i o (λ p h. same p (omega (arith, o.behind)) (omega (arith, o.behind)))

-- ===== src/Mailbox/Access/Counts.antt =====
-- The counters and the reset of an open sub-region.
use rtss_mailbox_umd.Base.{ℕ, ◌+◌, ◌-◌, ◌≤◌, ◌<◌, ◌≡◌, ◌⊎◌, ◌∙◌, refl, arith, [], length}
use rtss_mailbox_umd.Base.Int.{pos, int32_small}
use rtss_mailbox_umd.Memory.{Memory, get_reg, set_reg}
use rtss_mailbox_umd.Memory.Word.{
  get_reg_ext, set_reg-Apart, get_reg-set_reg, get_reg-set_reg-Apart,
}
use rtss_mailbox_umd.Mailbox.Layout.SubRgnDesc
use rtss_mailbox_umd.Mailbox.Ring.{free_item}
use rtss_mailbox_umd.Mailbox.Ring.Indices.{between, mod_below_twice}
use rtss_mailbox_umd.Mailbox.Ring.Contents.{
  capacity, item_size, in_index, out_index, contents, IsSane, valid_item-item_count,
}
use rtss_mailbox_umd.Mailbox.Access.{
  sub_region_base, get_free_item_num, get_valid_item_num, chan_reset, validate,
}
use rtss_mailbox_umd.Mailbox.Access.Open.{
  IsOpen, queue, queue_cap, length-queue, IsOpen-kept, sane_true, free_room,
}

module _ (m : Memory) (mb i : ℕ) (o : IsOpen m mb i) where
  -- On an open sub-region the two counters are exact: the number of valid items is the length of
  -- the queue, and with the number of free items and the reserved slot it makes up the capacity.
  pub counters_exact :
      (get_valid_item_num m mb i ≡ pos (length (queue m mb i)))
      × (free : ℕ) × (get_free_item_num m mb i ≡ pos free)
      × (free + length (queue m mb i) + 1 ≡ queue_cap m mb i)
  unfolding get_valid_item_num get_free_item_num
  counters_exact = (
    ground (
      arith,
      o,
      sane_true m mb i o,
      length-queue m mb i,
      valid_item-item_count m base o.sane,
      int32_small (length (queue m mb i)) (omega (arith, o.sane, free_room m mb i o)),
    ),
    free_item m base,
    ground (
      arith,
      o,
      sane_true m mb i o,
      int32_small (free_item m base) (omega (arith, o.sane, free_room m mb i o)),
    ),
    free_room m mb i o,
  )
    where
      base : ℕ
      base = sub_region_base m mb i

  reset_memory : Memory
  reset_memory =
      set_reg (set_reg m (SubRgnDesc.item_in_index (sub_region_base m mb i)) 0)
        (SubRgnDesc.item_out_index (sub_region_base m mb i)) 0

  reset_enters : chan_reset m mb i ≡ (pos 0, reset_memory)
  unfolding chan_reset reset_memory
  reset_enters = ground (arith, o, o.sane, sane_true m mb i o)

  reset-frame :
      (p : ℕ)
      → (p < sub_region_base m mb i + 48) ⊎ (sub_region_base m mb i + 56 ≤ p)
      → reset_memory p ≡ m p
  unfolding reset_memory
  reset-frame p h =
      set_reg-Apart (set_reg m (sub_region_base m mb i + 48) 0) (sub_region_base m mb i + 52) 0 p
        (omega (arith, h))
      ∙ set_reg-Apart m (sub_region_base m mb i + 48) 0 p (omega (arith, h))

  -- A reset of an open sub-region returns 0, empties the queue, keeps the sub-region open, and
  -- changes no byte but those of the two indices.
  pub chan_reset_empties :
      let (r, m') = chan_reset m mb i in
      (r ≡ pos 0)
      × (queue m' mb i ≡ [])
      × IsOpen m' mb i
      × ((p : ℕ)
          → (p < sub_region_base m mb i + 48) ⊎ (sub_region_base m mb i + 56 ≤ p)
          → m' p ≡ m p)
  chan_reset_empties = rw reset_enters (refl, rw (kept.0) empty, kept.1, reset-frame)
    where
      base : ℕ
      base = sub_region_base m mb i

      reg : (a : ℕ) → (a + 4 ≤ base + 48) → get_reg reset_memory a ≡ get_reg m a
      reg a h = get_reg_ext reset_memory m a (λ p l u. reset-frame p (omega arith))

      in_zero : in_index reset_memory base ≡ 0
      in_zero =
          unfold reset_memory in
          get_reg-set_reg-Apart (set_reg m (base + 48) 0) (base + 52) (base + 48) 0 (omega arith)
          ∙ get_reg-set_reg m (base + 48) 0 (omega arith)

      out_zero : out_index reset_memory base ≡ 0
      out_zero =
          unfold reset_memory in
          get_reg-set_reg (set_reg m (base + 48) 0) (base + 52) 0 (omega arith)

      cap_same : capacity reset_memory base ≡ capacity m base
      cap_same = reg (base + 40) (omega arith)

      size_same : item_size reset_memory base ≡ item_size m base
      size_same = reg (base + 44) (omega arith)

      sane' : IsSane reset_memory base
      sane' = record {
        not_null = o.sane.not_null;
        capacity_small = rw cap_same o.sane.capacity_small;
        size_small = rw size_same o.sane.size_small;
        in_range = rw (in_zero, cap_same) (omega (arith, o.sane));
        out_range = rw (out_zero, cap_same) (omega (arith, o.sane));
      }

      kept : (sub_region_base reset_memory mb i ≡ base) × IsOpen reset_memory mb i
      kept =
          IsOpen-kept m reset_memory mb i o (λ p l u. reset-frame p (omega (arith, o.behind)))
            cap_same size_same sane'

      none_between : between (capacity reset_memory base) 0 0 ≡ 0
      none_between = omega (
        arith,
        sane',
        mod_below_twice (0 + capacity reset_memory base - 0) (capacity reset_memory base)
            (omega (arith, sane')),
      )

      empty : contents reset_memory base ≡ []
      empty = rw (in_zero, out_zero, none_between) refl

-- `LibMB_Validate` accepts a mailbox that has been created.
pub validate_open : (m : Memory) (mb i : ℕ) → IsOpen m mb i → validate m mb ≡ pos 0
unfolding validate
validate_open m mb i o = ground (arith, o)

-- ===== src/Mailbox/Ring/Append.antt =====
-- What `LibMB_Write_Item` does to the memory, the registers and the queue of the sub-region.
use native.Mathlib.Nat.{mod-lt}
use rtss_mailbox_umd.Base.{
  ℕ, ◌+◌, ◌*◌, ◌%◌, ◌≤◌, ◌<◌, ◌≡◌, ◌≢◌, ◌⊎◌, ◌∙◌, ap₂, arith, List, tabulate_ext, tabulate-add,
  ◌++◌,
}
use rtss_mailbox_umd.Memory.{Memory, get_reg, set_reg}
use rtss_mailbox_umd.Memory.Word.{Apart, get_reg-set_reg, set_reg-Apart, get_reg_ext}
use rtss_mailbox_umd.Mailbox.Layout.SubRgnDesc
use rtss_mailbox_umd.Mailbox.Ring.{write_item}
use rtss_mailbox_umd.Mailbox.Ring.Item.{item, items, item_ext}
use rtss_mailbox_umd.Mailbox.Ring.Put.{put, put-frame, item-put_new, item-put_old}
use rtss_mailbox_umd.Mailbox.Ring.Indices.{between, between-add, slot_new, slot_ne, mod_below_twice}
use rtss_mailbox_umd.Mailbox.Ring.Contents.{
  capacity, item_size, in_index, out_index, ring_base, item_count, contents, IsSane, Fits,
}
use rtss_mailbox_umd.Mailbox.Ring.Write.{write_item-put}

module _ (m : Memory) (base src n : ℕ) (sane : IsSane m base) (fits : Fits m base)
    (src_ok : src ≢ 0) (room : item_count m base + n < capacity m base)
    (apart : Apart src (n * item_size m base) base (56 + capacity m base * item_size m base)) where
  abbrev after : Memory
  after = write_item m base src n

  abbrev filled : Memory
  filled = put m (ring_base m base) (item_size m base) (capacity m base) src (in_index m base) n

  abbrev moved : ℕ
  moved = (in_index m base + n) % capacity m base

  after-filled : after ≡ set_reg filled (SubRgnDesc.item_in_index base) moved
  after-filled = write_item-put m base src n sane fits src_ok (omega arith) apart

  moved-lt : moved < capacity m base
  moved-lt =
      omega
        (arith, sane, mod_below_twice (in_index m base + n) (capacity m base) (omega (arith, sane)))

  -- Only the write index and the bytes of the ring change.
  pub write_item-frame :
      (p : ℕ)
      → (p < base + 48) ⊎ (base + 52 ≤ p)
      → (p < base + 56) ⊎ (base + 56 + capacity m base * item_size m base ≤ p)
      → after p ≡ m p
  write_item-frame p out_reg out_ring =
      rw (after-filled, set_reg-Apart filled (base + 48) moved p (omega (arith, out_reg)))
        (put-frame m (base + 56) (item_size m base) (capacity m base) src (in_index m base) n p
          sane.in_range (omega arith) out_ring)

  register_kept : (a : ℕ) → (a + 4 ≤ base + 48) ⊎ (a ≡ base + 52) → get_reg after a ≡ get_reg m a
  register_kept a h =
      get_reg_ext after m a (λ p l u. write_item-frame p (omega (arith, h)) (omega (arith, h)))

  in_index-after : in_index after base ≡ moved
  in_index-after =
      rw after-filled (get_reg-set_reg filled (base + 48) moved (omega (arith, sane, moved-lt)))

  item-after :
      (s : ℕ)
      → s < capacity m base
      → item after (base + 56) (item_size m base) s ≡ item filled (base + 56) (item_size m base) s
  item-after s h = rw after-filled (
      item_ext (set_reg filled (base + 48) moved) filled (base + 56) (item_size m base)
        (capacity m base) s h (λ p l u. set_reg-Apart filled (base + 48) moved p (omega arith)))

  pub capacity-write_item : capacity after base ≡ capacity m base
  capacity-write_item = register_kept (base + 40) (omega arith)

  pub item_size-write_item : item_size after base ≡ item_size m base
  item_size-write_item = register_kept (base + 44) (omega arith)

  out_index-after : out_index after base ≡ out_index m base
  out_index-after = register_kept (base + 52) (omega arith)

  pub write_item-IsSane : IsSane after base
  write_item-IsSane = record {
    not_null = sane.not_null;
    capacity_small = rw capacity-write_item sane.capacity_small;
    size_small = rw item_size-write_item sane.size_small;
    in_range = rw (in_index-after, capacity-write_item) moved-lt;
    out_range = rw (out_index-after, capacity-write_item) sane.out_range;
  }

  -- The items written stand behind those that were there, in their order.
  pub write_item-contents :
      contents after base ≡ contents m base ++ items m src (item_size m base) n
  write_item-contents =
      rw (capacity-write_item, item_size-write_item, out_index-after, in_index-after, count-after)
        (tabulate-add (item_count m base) n slot_after
          ∙ ap₂ ◌++◌
              (tabulate_ext (item_count m base) slot_after (slot m) (λ j h.
                item-after (place j) (place-lt j)
                ∙ item-put_old m (base + 56) (item_size m base) (capacity m base) src
                    (in_index m base) n sane.in_range (omega arith) (place j) (place-lt j)
                    (λ i hi.
                      slot_ne (capacity m base) (in_index m base) (out_index m base) sane.in_range
                        sane.out_range j i h (omega arith))))
              (tabulate_ext n (λ k. slot_after (item_count m base + k))
                (item m src (item_size m base))
                (λ k h.
                  item-after (place (item_count m base + k)) (place-lt _)
                  ∙ rw
                      (slot_new (capacity m base) (in_index m base) (out_index m base) sane.in_range
                        sane.out_range k (omega arith))
                      (item-put_new m (base + 56) (item_size m base) (capacity m base) src
                        (in_index m base) n sane.in_range (omega arith) k (omega (arith, apart))
                        h))))
    where
      place : ℕ → ℕ
      place j = (out_index m base + j) % capacity m base

      slot : Memory → ℕ → List ℕ
      slot mem j = item mem (base + 56) (item_size m base) (place j)

      slot_after : ℕ → List ℕ
      slot_after = slot after

      place-lt : (j : ℕ) → place j < capacity m base
      place-lt j = mod-lt (out_index m base + j) (omega (arith, sane))

      count-after : between (capacity m base) moved (out_index m base) ≡ item_count m base + n
      count-after =
          between-add (capacity m base) (in_index m base) (out_index m base) sane.in_range
            sane.out_range n room

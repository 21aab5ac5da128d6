-- ===== src/Mailbox/Ring/Remove.antt =====
-- What `LibMB_Read_Item` does to the memory, the registers and the queue of the sub-region.
use native.Mathlib.Nat.{mod-lt}
use rtss_mailbox_umd.Base.{
  ℕ, ◌+◌, ◌-◌, ◌*◌, ◌%◌, ◌≤◌, ◌<◌, ◌≡◌, ◌≢◌, ◌⊎◌, ◌∙◌, sym, ap, ap₂, arith, List, tabulate,
  tabulate_ext, tabulate-add, ◌++◌,
}
use rtss_mailbox_umd.Memory.{Memory, get_reg, set_reg}
use rtss_mailbox_umd.Memory.Word.{Apart, get_reg-set_reg, set_reg-Apart, get_reg_ext}
use rtss_mailbox_umd.Mailbox.Layout.SubRgnDesc
use rtss_mailbox_umd.Mailbox.Ring.{read_item}
use rtss_mailbox_umd.Mailbox.Ring.Item.{item, items, item_ext}
use rtss_mailbox_umd.Mailbox.Ring.Get.{get, get-frame, item-get}
use rtss_mailbox_umd.Mailbox.Ring.Indices.{between, between-lt, between-sub, slot_skip}
use rtss_mailbox_umd.Mailbox.Ring.Contents.{
  capacity, item_size, in_index, out_index, ring_base, item_count, contents, IsSane, Fits,
}
use rtss_mailbox_umd.Mailbox.Ring.Read.{read_item-get}

module _ (m : Memory) (base dest n : ℕ) (sane : IsSane m base) (fits : Fits m base)
    (dest_ok : dest ≢ 0) (there : n ≤ item_count m base)
    (apart : Apart dest (n * item_size m base) base (56 + capacity m base * item_size m base)) where
  abbrev after : Memory
  after = read_item m base dest n

  abbrev taken : Memory
  taken = get m (ring_base m base) (item_size m base) (capacity m base) dest (out_index m base) n

  abbrev moved : ℕ
  moved = (out_index m base + n) % capacity m base

  count-lt : item_count m base < capacity m base
  count-lt =
      between-lt (capacity m base) (in_index m base) (out_index m base) sane.in_range sane.out_range

  after-taken : after ≡ set_reg taken (SubRgnDesc.item_out_index base) moved
  after-taken = read_item-get m base dest n sane fits dest_ok (omega (arith, count-lt)) apart

  moved-lt : moved < capacity m base
  moved-lt = mod-lt (out_index m base + n) (omega (arith, sane))

  -- Only the read index and the destination change.
  pub read_item-frame :
      (p : ℕ)
      → (p < base + 52) ⊎ (base + 56 ≤ p)
      → (p < dest) ⊎ (dest + n * item_size m base ≤ p)
      → after p ≡ m p
  read_item-frame p out_reg out_dest =
      rw (after-taken, set_reg-Apart taken (base + 52) moved p (omega (arith, out_reg)))
        (get-frame m (base + 56) (item_size m base) (capacity m base) dest (out_index m base) n p
          sane.out_range (omega (arith, count-lt)) out_dest)

  register_kept : (a : ℕ) → base ≤ a → a + 4 ≤ base + 52 → get_reg after a ≡ get_reg m a
  register_kept a l u =
      get_reg_ext after m a (λ p l' u'. read_item-frame p (omega arith) (omega (arith, apart)))

  pub capacity-read_item : capacity after base ≡ capacity m base
  capacity-read_item = register_kept (base + 40) (omega arith) (omega arith)

  pub item_size-read_item : item_size after base ≡ item_size m base
  item_size-read_item = register_kept (base + 44) (omega arith) (omega arith)

  in_index-after : in_index after base ≡ in_index m base
  in_index-after = register_kept (base + 48) (omega arith) (omega arith)

  out_index-after : out_index after base ≡ moved
  out_index-after =
      rw after-taken (get_reg-set_reg taken (base + 52) moved (omega (arith, sane, moved-lt)))

  pub read_item-IsSane : IsSane after base
  read_item-IsSane = record {
    not_null = sane.not_null;
    capacity_small = rw capacity-read_item sane.capacity_small;
    size_small = rw item_size-read_item sane.size_small;
    in_range = rw (in_index-after, capacity-read_item) sane.in_range;
    out_range = rw (out_index-after, capacity-read_item) moved-lt;
  }

  item_kept :
      (s : ℕ)
      → s < capacity m base
      → item after (base + 56) (item_size m base) s ≡ item m (base + 56) (item_size m base) s
  item_kept s h =
      item_ext after m (base + 56) (item_size m base) (capacity m base) s h
        (λ p l u. read_item-frame p (omega arith) (omega (arith, apart)))

  item_taken :
      (j : ℕ)
      → j < n
      → item after dest (item_size m base) j
        ≡ item m (base + 56) (item_size m base) ((out_index m base + j) % capacity m base)
  item_taken j h =
      item_ext after taken dest (item_size m base) n j h
        (λ p l u. rw after-taken (set_reg-Apart taken (base + 52) moved p (omega (arith, apart))))
      ∙ item-get m (base + 56) (item_size m base) (capacity m base) dest (out_index m base) n j
          sane.out_range (omega (arith, count-lt)) (omega (arith, apart)) h

  -- The items that come out are the oldest, in their order, and the others stay.
  pub read_item-contents :
      contents m base ≡ items after dest (item_size m base) n ++ contents after base
  read_item-contents =
      rw (capacity-read_item, item_size-read_item, in_index-after, out_index-after, count-after)
        (ap (λ (c : ℕ). tabulate c slot) (omega arith)
          ∙ tabulate-add n (item_count m base - n) slot
          ∙ ap₂ ◌++◌
              (tabulate_ext n slot (item after dest (item_size m base))
                (λ j h. sym (item_taken j h)))
              (tabulate_ext (item_count m base - n) (λ k. slot (n + k)) slot_after
                (λ k h. sym (
                  item_kept ((moved + k) % capacity m base)
                    (mod-lt (moved + k) (omega (arith, sane)))
                  ∙ ap (item m (base + 56) (item_size m base)) (
                      slot_skip (capacity m base) (in_index m base) (out_index m base) sane.in_range
                        sane.out_range k n (omega (arith, count-lt)))))))
    where
      slot : ℕ → List ℕ
      slot j = item m (base + 56) (item_size m base) ((out_index m base + j) % capacity m base)

      slot_after : ℕ → List ℕ
      slot_after j = item after (base + 56) (item_size m base) ((moved + j) % capacity m base)

      count-after : between (capacity m base) (in_index m base) moved ≡ item_count m base - n
      count-after =
          between-sub (capacity m base) (in_index m base) (out_index m base) sane.in_range
            sane.out_range n there

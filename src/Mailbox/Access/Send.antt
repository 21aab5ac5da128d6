-- ===== src/Mailbox/Access/Send.antt =====
-- `LibMB_Write` on an open sub-region, as an operation on its queue.
use rtss_mailbox_umd.Base.{
  ℕ, ◌+◌, ◌*◌, ◌≤◌, ◌<◌, ◌≡◌, ◌≢◌, ◌⊎◌, refl, arith, length, ◌++◌, leb, lt→leb, le→leb,
  if◌then◌else◌,
}
use rtss_mailbox_umd.Base.Int.{pos, int32, int32_small}
use rtss_mailbox_umd.Memory.{Memory}
use rtss_mailbox_umd.Memory.Word.{Apart}
use rtss_mailbox_umd.Mailbox.Layout.{mb_e_no_enough_buf}
use rtss_mailbox_umd.Mailbox.Ring.{free_item, write_item}
use rtss_mailbox_umd.Mailbox.Ring.Item.{items}
use rtss_mailbox_umd.Mailbox.Ring.Contents.{capacity, item_size, item_count}
use rtss_mailbox_umd.Mailbox.Ring.Append.{
  write_item-contents, write_item-IsSane, write_item-frame, capacity-write_item,
  item_size-write_item,
}
use rtss_mailbox_umd.Mailbox.Access.{sub_region_base, write}
use rtss_mailbox_umd.Mailbox.Access.Open.{
  IsOpen, queue, queue_cap, queue_size, BufferApart, length-queue, IsOpen-kept, sane_true,
  free_room,
}

module _ (m : Memory) (mb i : ℕ) (o : IsOpen m mb i) where
  write_enters :
      (src n : ℕ)
      → src ≢ 0
      → write m mb src n i ≡ (
          if leb n (free_item m (sub_region_base m mb i))
          then (int32 n, write_item m (sub_region_base m mb i) src n)
          else (mb_e_no_enough_buf, m))
  unfolding write
  write_enters src n h = ground (arith, o, sane_true m mb i o)

  -- A call of `LibMB_Write` with more items than the queue has room for, one slot kept free,
  -- returns MB_E_NO_ENOUGH_BUF and changes nothing.
  pub write_full :
      (src n : ℕ)
      → src ≢ 0
      → queue_cap m mb i ≤ length (queue m mb i) + n
      → write m mb src n i ≡ (mb_e_no_enough_buf, m)
  write_full src n h full = rw (
    write_enters src n h,
    lt→leb (free_item m (sub_region_base m mb i)) n (omega (arith, free_room m mb i o)),
  )

  module _ (src n : ℕ) (src_ok : src ≢ 0) (room : length (queue m mb i) + n < queue_cap m mb i)
      (apart : BufferApart m mb i src n) where
    abbrev base : ℕ
    base = sub_region_base m mb i

    abbrev after : Memory
    after = write_item m base src n

    fits_in : item_count m base + n < capacity m base
    fits_in = omega (arith, room, length-queue m mb i)

    there : Apart src (n * item_size m base) base (56 + capacity m base * item_size m base)
    there = omega (arith, apart)

    result : write m mb src n i ≡ (pos n, after)
    result = rw (
      write_enters src n src_ok,
      le→leb n (free_item m base) (omega (arith, free_room m mb i o)),
      int32_small n (omega (arith, o.sane)),
    )

    kept : (sub_region_base after mb i ≡ base) × IsOpen after mb i
    kept =
        IsOpen-kept m after mb i o
          (λ p l u.
            write_item-frame m base src n o.sane o.fits src_ok fits_in there p
              (omega (arith, o.behind)) (omega (arith, o.behind)))
          (capacity-write_item m base src n o.sane o.fits src_ok fits_in there)
          (item_size-write_item m base src n o.sane o.fits src_ok fits_in there)
          (write_item-IsSane m base src n o.sane o.fits src_ok fits_in there)

    -- A call of `LibMB_Write` with no more items than the queue has room for, one slot kept free,
    -- returns their number, appends them to the queue, and leaves the sub-region open.
    pub write_appends :
        let (r, m') = write m mb src n i in
        (r ≡ pos n)
        × (queue m' mb i ≡ queue m mb i ++ items m src (queue_size m mb i) n)
        × IsOpen m' mb i
    write_appends = rw result (
      refl,
      rw kept.0 (write_item-contents m base src n o.sane o.fits src_ok fits_in there),
      kept.1,
    )

    -- The sub-region stays where it is, with its capacity and its item size.
    pub write_keeps :
        let m' = (write m mb src n i).1 in
        (sub_region_base m' mb i ≡ sub_region_base m mb i)
        × (queue_cap m' mb i ≡ queue_cap m mb i)
        × (queue_size m' mb i ≡ queue_size m mb i)
    write_keeps = rw result (
      kept.0,
      rw kept.0 (capacity-write_item m base src n o.sane o.fits src_ok fits_in there),
      rw kept.0 (item_size-write_item m base src n o.sane o.fits src_ok fits_in there),
    )

    -- It stores into its own sub-region only, from the write index on.
    pub write-outside :
        (p : ℕ)
        → (p < base + 48) ⊎ (base + 56 + queue_cap m mb i * queue_size m mb i ≤ p)
        → (write m mb src n i).1 p ≡ m p
    write-outside p out = rw result (
        write_item-frame m base src n o.sane o.fits src_ok fits_in there p (omega arith)
          (omega arith))

-- ===== src/Mailbox/Access/Receive.antt =====
-- `LibMB_Read` on an open sub-region, as an operation on its queue.
use rtss_mailbox_umd.Base.{
  ℕ, ◌+◌, ◌*◌, ◌^◌, ◌≤◌, ◌<◌, ◌≡◌, ◌≢◌, ◌⊎◌, dec_lt, lt→ltb, le→ltb, refl, sym, ap, arith, length,
  ◌++◌, ltb, if◌then◌else◌, min,
}
use rtss_mailbox_umd.Base.Int.{pos, int32, int32_small}
use rtss_mailbox_umd.Memory.{Memory}
use rtss_mailbox_umd.Memory.Word.{Apart}
use rtss_mailbox_umd.Mailbox.Ring.{valid_item, read_item}
use rtss_mailbox_umd.Mailbox.Ring.Item.{items}
use rtss_mailbox_umd.Mailbox.Ring.Contents.{capacity, item_size, item_count, valid_item-item_count}
use rtss_mailbox_umd.Mailbox.Ring.Remove.{
  read_item-contents, read_item-IsSane, read_item-frame, capacity-read_item, item_size-read_item,
}
use rtss_mailbox_umd.Mailbox.Access.{sub_region_base, read}
use rtss_mailbox_umd.Mailbox.Access.Open.{
  IsOpen, queue, queue_cap, queue_size, BufferApart, length-queue, IsOpen-kept, sane_true,
  free_room,
}

module _ (m : Memory) (mb i : ℕ) (o : IsOpen m mb i) where
  num_lem :
      (n : ℕ)
      → (if ltb (valid_item m (sub_region_base m mb i)) n
          then valid_item m (sub_region_base m mb i)
          else n)
        ≡ min (length (queue m mb i)) n
  num_lem n =
      rw (length-queue m mb i, valid_item-item_count m (sub_region_base m mb i) o.sane)
        (ground arith)

  read_enters :
      (dest n : ℕ)
      → dest ≢ 0
      → read m mb dest n i ≡ (
          if ltb 0 (min (length (queue m mb i)) n)
          then (
            int32 (min (length (queue m mb i)) n),
            read_item m (sub_region_base m mb i) dest (min (length (queue m mb i)) n),
          )
          else (pos 0, m))
  unfolding read
  read_enters dest n h = rw (num_lem n) (ground (arith, o, sane_true m mb i o))

  module _ (dest n : ℕ) (dest_ok : dest ≢ 0)
      (apart : BufferApart m mb i dest (min (length (queue m mb i)) n)) where
    abbrev base : ℕ
    base = sub_region_base m mb i

    abbrev few : ℕ
    few = min (length (queue m mb i)) n

    abbrev after : Memory
    after = read_item m base dest few

    small : few < 2 ^ 31
    small = omega (arith, free_room m mb i o, o.sane)

    enough : few ≤ item_count m base
    enough = omega (arith, length-queue m mb i)

    there : Apart dest (few * item_size m base) base (56 + capacity m base * item_size m base)
    there = omega (arith, apart)

    kept : (sub_region_base after mb i ≡ base) × IsOpen after mb i
    kept =
        IsOpen-kept m after mb i o
          (λ p l u.
            read_item-frame m base dest few o.sane o.fits dest_ok enough there p
              (omega (arith, o.behind)) (omega (arith, o.behind, apart)))
          (capacity-read_item m base dest few o.sane o.fits dest_ok enough there)
          (item_size-read_item m base dest few o.sane o.fits dest_ok enough there)
          (read_item-IsSane m base dest few o.sane o.fits dest_ok enough there)

    reads : 0 < few → read m mb dest n i ≡ (pos few, after)
    reads some_there =
        rw (read_enters dest n dest_ok, lt→ltb 0 few some_there, int32_small few small) refl

    reads_nothing : ¬ (0 < few) → (few ≡ 0) × (read m mb dest n i ≡ (pos 0, m))
    reads_nothing none =
        (omega arith, rw (read_enters dest n dest_ok, le→ltb few 0 (omega arith)) refl)

    -- A call of `LibMB_Read` returns the number asked for, or the number of items in the queue if
    -- that is less. The oldest items stand in the destination, in order, the others stay in the
    -- queue, and the sub-region stays open.
    pub read_removes :
        let (r, m') = read m mb dest n i in
        let k = min (length (queue m mb i)) n in
        (r ≡ pos k)
        × (queue m mb i ≡ items m' dest (queue_size m mb i) k ++ queue m' mb i)
        × IsOpen m' mb i
    read_removes = elim (dec_lt 0 few) [
      | yes some_there ↦ rw (reads some_there) (
        refl,
        rw kept.0 (read_item-contents m base dest few o.sane o.fits dest_ok enough there),
        kept.1,
      )
      | no nothing ↦
          let none = reads_nothing nothing in
          rw none.1 (
            ap pos (sym none.0),
            ap (λ (k : ℕ). items m dest (queue_size m mb i) k ++ queue m mb i) (sym none.0),
            o,
          )
    ]

    -- The sub-region stays where it is, with its capacity and its item size.
    pub read_keeps :
        let m' = (read m mb dest n i).1 in
        (sub_region_base m' mb i ≡ sub_region_base m mb i)
        × (queue_cap m' mb i ≡ queue_cap m mb i)
        × (queue_size m' mb i ≡ queue_size m mb i)
    read_keeps = elim (dec_lt 0 few) [
      | yes some_there ↦ rw (reads some_there) (
        kept.0,
        rw kept.0 (capacity-read_item m base dest few o.sane o.fits dest_ok enough there),
        rw kept.0 (item_size-read_item m base dest few o.sane o.fits dest_ok enough there),
      )
      | no nothing ↦ rw (reads_nothing nothing).1 (refl, refl, refl)
    ]

    -- It stores into the destination and its own read index only.
    pub read-outside :
        (p : ℕ)
        → (p < dest) ⊎ (dest + few * queue_size m mb i ≤ p)
        → (p < base + 52) ⊎ (base + 56 ≤ p)
        → (read m mb dest n i).1 p ≡ m p
    read-outside p out away = elim (dec_lt 0 few) [
      | yes some_there ↦
          rw (reads some_there)
            (read_item-frame m base dest few o.sane o.fits dest_ok enough there p away out)
      | no nothing ↦ rw (reads_nothing nothing).1 refl
    ]

-- ===== src/Mailbox/Ring/Read.antt =====
-- The steps of `LibMB_Read_Item` on a sane sub-region, against a run out of the ring.
use rtss_mailbox_umd.Base.{
  ℕ, ◌+◌, ◌-◌, ◌*◌, ◌%◌, ◌≤◌, ◌<◌, ◌≡◌, ◌≢◌, arith, lt→ltb, le→ltb, dec_lt, u32, sub32, false, ◌||◌,
  leb, ◌==◌,
}
use rtss_mailbox_umd.Memory.{Memory, set_reg, copy_run}
use rtss_mailbox_umd.Memory.Word.{Apart}
use rtss_mailbox_umd.Memory.Copy.{libmbcopy_bytes-copy_run}
use rtss_mailbox_umd.Mailbox.Layout.SubRgnDesc
use rtss_mailbox_umd.Mailbox.Ring.{read_item}
use rtss_mailbox_umd.Mailbox.Ring.Item.{mul_mono}
use rtss_mailbox_umd.Mailbox.Ring.Get.{get}
use rtss_mailbox_umd.Mailbox.Ring.Put.{mul_split}
use rtss_mailbox_umd.Mailbox.Ring.Write.{u32_of_items}
use rtss_mailbox_umd.Mailbox.Ring.Contents.{capacity, item_size, out_index, ring_base, IsSane, Fits}

module _ (m : Memory) (base dest n : ℕ) (sane : IsSane m base) (fits : Fits m base) where
  abbrev size : ℕ
  size = item_size m base

  abbrev slots : ℕ
  slots = capacity m base

  abbrev start : ℕ
  start = out_index m base

  module _ (dest_ok : dest ≢ 0) (few : n < slots)
      (apart : Apart dest (n * size) base (56 + slots * size)) where
    no_wrap_sum : u32 (start + n) ≡ start + n
    no_wrap_sum = omega (arith, sane)

    no_wrap_first : sub32 slots start ≡ slots - start
    no_wrap_first = omega (arith, sane)

    no_wrap_second : slots < start + n → sub32 (start + n) slots ≡ start + n - slots
    no_wrap_second past = omega (arith, sane)

    no_wrap : (c : ℕ) → c ≤ slots → u32 (c * size) ≡ c * size
    no_wrap c le = u32_of_items c size slots le fits.bytes_small

    guard_passes : (slots == 0 || size == 0 || leb slots start) ≡ false
    guard_passes = ground (arith, sane, fits)

    first_clear :
        slots < start + n
        → Apart dest ((slots - start) * size) (base + 56 + start * size) ((slots - start) * size)
    first_clear past = omega (
      arith,
      apart,
      mul_split start (slots - start) slots size (omega (arith, sane)),
      mul_mono (slots - start) n size (omega arith),
    )

    second_clear :
        slots < start + n
        → Apart
            (dest + (slots - start) * size)
            ((start + n - slots) * size)
            (base + 56)
            ((start + n - slots) * size)
    second_clear past = omega (
      arith,
      apart,
      mul_split (slots - start) (start + n - slots) n size (omega (arith, sane)),
      mul_mono (start + n - slots) slots size (omega (arith, sane)),
    )

    whole_clear : start + n ≤ slots → Apart dest (n * size) (base + 56 + start * size) (n * size)
    whole_clear short = omega (arith, apart, mul_mono (start + n) slots size short)

    -- On a sane sub-region whose bytes fit 32 bits no computation of an address wraps, and the
    -- function is a copy in two parts and an update of the read index.
    pub read_item-get :
        read_item m base dest n
        ≡ set_reg
            (get m (ring_base m base) size slots dest start n)
            (SubRgnDesc.item_out_index base)
            ((start + n) % slots)
    unfolding read_item get
    read_item-get = elim (dec_lt slots (start + n)) [
      | yes past ↦ rw (
        guard_passes,
        no_wrap_sum,
        lt→ltb slots (start + n) past,
        no_wrap_first,
        no_wrap_second past,
        no_wrap start (omega (arith, sane)),
        no_wrap (slots - start) (omega arith),
        no_wrap (start + n - slots) (omega (arith, sane)),
        libmbcopy_bytes-copy_run m dest (base + 56 + start * size) ((slots - start) * size) dest_ok
            (omega (arith, sane)) (first_clear past),
        libmbcopy_bytes-copy_run
            (copy_run m dest (base + 56 + start * size) ((slots - start) * size))
            (dest + (slots - start) * size) (base + 56) ((start + n - slots) * size) (omega arith)
            (omega (arith, sane)) (second_clear past),
      )
      | no short ↦ rw (
        guard_passes,
        no_wrap_sum,
        le→ltb (start + n) slots (omega arith),
        no_wrap start (omega (arith, sane)),
        no_wrap n (omega arith),
        libmbcopy_bytes-copy_run m dest (base + 56 + start * size) (n * size) dest_ok
            (omega (arith, sane)) (whole_clear (omega arith)),
      )
    ]

-- ===== src/Mailbox/Ring/Write.antt =====
-- The steps of `LibMB_Write_Item` on a sane sub-region, against a run into the ring.
use native.Mathlib.Nat.{mod-eq_of_lt}
use rtss_mailbox_umd.Base.{
  ℕ, ◌+◌, ◌-◌, ◌*◌, ◌%◌, ◌^◌, ◌≤◌, ◌<◌, ◌≡◌, ◌≢◌, arith, lt→ltb, le→ltb, dec_lt, u32, sub32, false,
  ◌||◌, leb, ◌==◌,
}
use rtss_mailbox_umd.Memory.{Memory, set_reg, copy_run}
use rtss_mailbox_umd.Memory.Word.{Apart}
use rtss_mailbox_umd.Memory.Copy.{libmbcopy_bytes-copy_run}
use rtss_mailbox_umd.Mailbox.Layout.SubRgnDesc
use rtss_mailbox_umd.Mailbox.Ring.{write_item}
use rtss_mailbox_umd.Mailbox.Ring.Item.{mul_mono}
use rtss_mailbox_umd.Mailbox.Ring.Put.{put, mul_split}
use rtss_mailbox_umd.Mailbox.Ring.Contents.{capacity, item_size, in_index, ring_base, IsSane, Fits}

-- The length in bytes of items that the ring has room for does not wrap.
pub u32_of_items :
    (c size slots : ℕ) → c ≤ slots → slots * size < 2 ^ 32 → u32 (c * size) ≡ c * size
u32_of_items c size slots le small =
    mod-eq_of_lt {n = c * size} {m = 2 ^ 32} (omega (arith, mul_mono c slots size le))

module _ (m : Memory) (base src n : ℕ) (sane : IsSane m base) (fits : Fits m base) where
  abbrev size : ℕ
  size = item_size m base

  abbrev slots : ℕ
  slots = capacity m base

  abbrev start : ℕ
  start = in_index m base

  module _ (src_ok : src ≢ 0) (few : n < slots)
      (apart : Apart src (n * size) base (56 + slots * size)) where
    no_wrap_sum : u32 (start + n) ≡ start + n
    no_wrap_sum = omega (arith, sane)

    no_wrap_first : sub32 slots start ≡ slots - start
    no_wrap_first = omega (arith, sane)

    no_wrap_second : slots < start + n → sub32 (start + n) slots ≡ start + n - slots
    no_wrap_second past = omega (arith, sane)

    no_wrap : (c : ℕ) → c ≤ slots → u32 (c * size) ≡ c * size
    no_wrap c le = u32_of_items c size slots le fits.bytes_small

    guard_passes : (slots == 0 || size == 0 || leb slots start) ≡ false
    guard_passes = ground (arith, sane, fits)

    first_clear :
        slots < start + n
        → Apart (base + 56 + start * size) ((slots - start) * size) src ((slots - start) * size)
    first_clear past = omega (
      arith,
      apart,
      mul_split start (slots - start) slots size (omega (arith, sane)),
      mul_mono (slots - start) n size (omega arith),
    )

    second_clear :
        slots < start + n
        → Apart
            (base + 56)
            ((start + n - slots) * size)
            (src + (slots - start) * size)
            ((start + n - slots) * size)
    second_clear past = omega (
      arith,
      apart,
      mul_split (slots - start) (start + n - slots) n size (omega (arith, sane)),
      mul_mono (start + n - slots) slots size (omega (arith, sane)),
    )

    whole_clear : start + n ≤ slots → Apart (base + 56 + start * size) (n * size) src (n * size)
    whole_clear short = omega (arith, apart, mul_mono (start + n) slots size short)

    -- On a sane sub-region whose bytes fit 32 bits no computation of an address wraps, and the
    -- function is a copy in two parts and an update of the write index.
    pub write_item-put :
        write_item m base src n
        ≡ set_reg
            (put m (ring_base m base) size slots src start n)
            (SubRgnDesc.item_in_index base)
            ((start + n) % slots)
    unfolding write_item put
    write_item-put = elim (dec_lt slots (start + n)) [
      | yes past ↦ rw (
        guard_passes,
        no_wrap_sum,
        lt→ltb slots (start + n) past,
        no_wrap_first,
        no_wrap_second past,
        no_wrap start (omega (arith, sane)),
        no_wrap (slots - start) (omega arith),
        no_wrap (start + n - slots) (omega (arith, sane)),
        libmbcopy_bytes-copy_run m (base + 56 + start * size) src ((slots - start) * size)
            (omega (arith, sane)) src_ok (first_clear past),
        libmbcopy_bytes-copy_run
            (copy_run m (base + 56 + start * size) src ((slots - start) * size)) (base + 56)
            (src + (slots - start) * size) ((start + n - slots) * size) (omega (arith, sane))
            (omega arith) (second_clear past),
      )
      | no short ↦ rw (
        guard_passes,
        no_wrap_sum,
        le→ltb (start + n) slots (omega arith),
        no_wrap start (omega (arith, sane)),
        no_wrap n (omega arith),
        libmbcopy_bytes-copy_run m (base + 56 + start * size) src (n * size) (omega (arith, sane))
            src_ok (whole_clear (omega arith)),
      )
    ]

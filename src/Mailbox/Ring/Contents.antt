-- ===== src/Mailbox/Ring/Contents.antt =====
-- What a sub-region holds, read off its registers: the abstract queue of items that the ring
-- stands for, and the condition under which it stands for one.
use rtss_mailbox_umd.Base.{
  ℕ, ◌+◌, ◌*◌, ◌%◌, ◌^◌, ◌≤◌, ◌<◌, ◌≡◌, ◌≢◌, ◌↔◌, true, arith, List, tabulate,
}
use rtss_mailbox_umd.Memory.{Memory, get_reg}
use rtss_mailbox_umd.Mailbox.Layout.SubRgnDesc
use rtss_mailbox_umd.Mailbox.Layout.{mb_max_item_num, mb_max_size, mb_sub_region_header_sz}
use rtss_mailbox_umd.Mailbox.Ring.{sanity_check, valid_item, free_item}
use rtss_mailbox_umd.Mailbox.Ring.Item.{item}
use rtss_mailbox_umd.Mailbox.Ring.Indices.{between, between_cases}

module _ (m : Memory) (base : ℕ) where
  abbrev pub capacity : ℕ
  capacity = get_reg m (SubRgnDesc.max_item_num base)

  abbrev pub item_size : ℕ
  item_size = get_reg m (SubRgnDesc.max_item_size base)

  abbrev pub in_index : ℕ
  in_index = get_reg m (SubRgnDesc.item_in_index base)

  abbrev pub out_index : ℕ
  out_index = get_reg m (SubRgnDesc.item_out_index base)

  abbrev pub ring_base : ℕ
  ring_base = base + mb_sub_region_header_sz

  -- the items between the read index and the write index, going round
  abbrev pub item_count : ℕ
  item_count = between capacity in_index out_index

  abbrev pub contents : List (List ℕ)
  contents = tabulate item_count (λ j. item m ring_base item_size ((out_index + j) % capacity))

  -- What the sanity check establishes.
  pub record IsSane : Type 0 where
    pub not_null : base ≢ 0
    pub capacity_small : capacity ≤ mb_max_item_num
    pub size_small : item_size ≤ mb_max_size
    pub in_range : in_index < capacity
    pub out_range : out_index < capacity

  -- What the checks at creation are for: the bytes of the ring fit a uint32_t.
  pub record Fits : Type 0 where
    pub size_pos : 0 < item_size
    pub bytes_small : capacity * item_size < 2 ^ 32

-- The sanity check passes exactly on an address that is not NULL, a capacity and an item size
-- within the limits of the library, and two indices below the capacity.
pub sanity_check-IsSane : (m : Memory) (base : ℕ) → (sanity_check m base ≡ true) ↔ IsSane m base
unfolding sanity_check
sanity_check-IsSane m base = (λ h. ground arith, λ h. ground arith)

module _ (m : Memory) (base : ℕ) (sane : IsSane m base) where
  -- `LibMB_Valid_Item` counts the items between the indices; no subtraction wraps.
  pub valid_item-item_count : valid_item m base ≡ item_count m base
  unfolding valid_item
  valid_item-item_count = ground (
    arith,
    between_cases (capacity m base) (in_index m base) (out_index m base) sane.in_range
        sane.out_range,
  )

  -- `LibMB_Free_Item` counts the other slots but one, which stays reserved.
  pub free_item-item_count : free_item m base + item_count m base + 1 ≡ capacity m base
  unfolding free_item
  free_item-item_count = ground (
    arith,
    between_cases (capacity m base) (in_index m base) (out_index m base) sane.in_range
        sane.out_range,
  )

-- ===== src/Mailbox/Access/Errors.antt =====
-- The failing calls of the access functions.
use rtss_mailbox_umd.Base.{ℕ, ◌^◌, ◌≤◌, ◌<◌, ◌≡◌, ◌≢◌, ◌⊎◌, arith, true}
use rtss_mailbox_umd.Base.Int.{pos, int32_small, is_neg, pos_part}
use rtss_mailbox_umd.Memory.{Memory}
use rtss_mailbox_umd.Mailbox.Ring.{valid_item, free_item, sanity_check}
use rtss_mailbox_umd.Mailbox.Ring.Contents.{
  capacity, in_index, out_index, IsSane, sanity_check-IsSane, valid_item-item_count,
  free_item-item_count,
}
use rtss_mailbox_umd.Mailbox.Access.{
  sub_region_base, write, read, get_free_item_num, get_valid_item_num,
}
use rtss_mailbox_umd.Mailbox.Ring.Indices.{between-lt}

free_item_small : (m : Memory) (base : ℕ) → sanity_check m base ≡ true → free_item m base < 2 ^ 31
free_item_small m base h =
    let sane : IsSane m base = (sanity_check-IsSane m base).0 h in
    omega (arith, sane, free_item-item_count m base sane)

valid_item_small : (m : Memory) (base : ℕ) → sanity_check m base ≡ true → valid_item m base < 2 ^ 31
valid_item_small m base h =
    let sane : IsSane m base = (sanity_check-IsSane m base).0 h in
    omega (
      arith,
      sane,
      valid_item-item_count m base sane,
      between-lt (capacity m base) (in_index m base) (out_index m base) sane.in_range
          sane.out_range,
    )

-- Every call of `LibMB_Write`, whatever its arguments and the memory, returns the number of items
-- given, or it returns a negative code and leaves every byte of memory as it was.
pub write_all_or_nothing :
    (m : Memory) (mb src n i : ℕ)
    → let (r, m') = write m mb src n i in (r ≡ pos n) ⊎ ((is_neg r ≡ true) × (m' ≡ m))
unfolding write
write_all_or_nothing m mb src n i =
    ground (arith, free_item_small m (sub_region_base m mb i), int32_small n)

-- Every call of `LibMB_Read`, whatever its arguments and the memory, returns at most the number
-- of items asked for, and unless it returns a positive number it leaves every byte of memory as
-- it was.
pub read_bounded :
    (m : Memory) (mb dest n i : ℕ)
    → let (r, m') = read m mb dest n i in (pos_part r ≤ n) × (pos_part r ≡ 0 → m' ≡ m)
unfolding read
read_bounded m mb dest n i = ground (
  arith,
  valid_item_small m (sub_region_base m mb i),
  int32_small (valid_item m (sub_region_base m mb i)),
  int32_small n,
)

-- The access functions check alike: where `LibMB_Get_FreeItemNum` returns a negative code, so do
-- `LibMB_Get_ValidItemNum`, and `LibMB_Write` and `LibMB_Read` with a buffer that is not NULL, and
-- it is the same code.
pub errors_agree :
    (m : Memory) (mb src dest n k i : ℕ)
    → src ≢ 0
    → dest ≢ 0
    → is_neg (get_free_item_num m mb i) ≡ true
    → (get_valid_item_num m mb i ≡ get_free_item_num m mb i)
      × ((write m mb src n i).0 ≡ get_free_item_num m mb i)
      × ((read m mb dest k i).0 ≡ get_free_item_num m mb i)
unfolding write read get_free_item_num get_valid_item_num
errors_agree m mb src dest n k i hs hd e = ground (
  arith,
  free_item_small m (sub_region_base m mb i),
  int32_small (free_item m (sub_region_base m mb i)),
)

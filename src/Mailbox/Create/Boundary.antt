-- ===== src/Mailbox/Create/Boundary.antt =====
-- What a layout that `LibMB_Boundary_Check` accepts is like.
use native.Mathlib.Nat.{div-add-mod, mod-eq_of_lt, mul-div_cancel_left}
use rtss_mailbox_umd.Base.{
  ap, ℕ, zero, suc, ◌+◌, ◌-◌, ◌*◌, ◌/◌, ◌%◌, ◌^◌, ◌≤◌, ◌<◌, ◌≡◌, ◌≢◌, ◌⊎◌, arith, true, false,
  ℕ_discrete,
}
use rtss_mailbox_umd.Mailbox.Layout.{MbConfig, SubRgnConfig, mb_max_sub_region_num, mb_max_item_num}
use rtss_mailbox_umd.Mailbox.Create.{
  CfgArray, region_bad, regions_good, region_end, region_limit, gaps_good, boundary_check,
  header_bytes,
}

-- The bytes of the items fit 32 bits together with the header before them.
abbrev pub SmallItems : SubRgnConfig → Type 0
SmallItems c = 55 + c.item_max_num * c.item_max_size < 2 ^ 32

regions_good_at :
    (left i : ℕ) (cfg : CfgArray) (j : ℕ)
    → regions_good left i cfg ≡ true
    → i ≤ j
    → j < i + left
    → region_bad (cfg j) ≡ false
unfolding regions_good
regions_good_at zero i cfg j h l u = absurd (omega arith)
regions_good_at (suc left) i cfg j h l u = elim (ℕ_discrete i j) [
  | yes e ↦ rw (← e) (ground arith)
  | no ne ↦ ground (arith, regions_good_at left (i + 1) cfg j)
]

gaps_good_at :
    (left i : ℕ) (mb_cfg : MbConfig) (cfg : CfgArray) (j : ℕ)
    → gaps_good left i mb_cfg cfg ≡ true
    → i ≤ j
    → j < i + left
    → (region_end mb_cfg cfg j < region_limit mb_cfg cfg j)
      × (region_limit mb_cfg cfg j ≤ mb_cfg.mb_size)
unfolding gaps_good
gaps_good_at zero i mb_cfg cfg j h l u = absurd (omega arith)
gaps_good_at (suc left) i mb_cfg cfg j h l u = elim (ℕ_discrete i j) [
  | yes e ↦ rw (← e) (ground arith)
  | no ne ↦ ground (arith, gaps_good_at left (i + 1) mb_cfg cfg j)
]

-- The division shows whether a product in 32 bits is exact.
product_exact : (a b : ℕ) → a ≢ 0 → a * b % 2 ^ 32 / a ≡ b → a * b % 2 ^ 32 ≡ a * b
product_exact a b nz e = omega (arith, div-add-mod (a * b % 2 ^ 32) a, ap (λ (t : ℕ). a * t) e)

product_divides : (a b : ℕ) → a ≢ 0 → a * b < 2 ^ 32 → a * b % 2 ^ 32 / a ≡ b
product_divides a b nz small =
    rw (mod-eq_of_lt {n = a * b} {m = 2 ^ 32} small) (mul-div_cancel_left b {n = a} (omega arith))

-- A sub-region that the first loop accepts covers its header and all its items, unless these are
-- so large that the sum of header and items passes 2 ^ 32. (The end is that of the last byte.)
region_covers :
    (c : SubRgnConfig)
    → region_bad c ≡ false
    → c.end_addr_offset < 2 ^ 32
    → (c.start_addr_offset + 55 + c.item_max_num * c.item_max_size ≤ c.end_addr_offset)
      ⊎ (2 ^ 32 ≤ 55 + c.item_max_num * c.item_max_size)
unfolding region_bad
region_covers c good last = ground (arith, product_exact c.item_max_num c.item_max_size)

-- The test of the first loop lets a sub-region pass whose header and items together, but not the items
-- alone, pass 2 ^ 32 bytes, if it ends behind the few bytes that the sum wraps to.
oversized_passes :
    (c : SubRgnConfig)
    → c.item_max_num ≢ 0
    → c.item_max_num ≤ mb_max_item_num
    → c.item_max_num * c.item_max_size < 2 ^ 32
    → 2 ^ 32 < 55 + c.item_max_num * c.item_max_size
    → c.start_addr_offset + 55 + c.item_max_num * c.item_max_size ≤ c.end_addr_offset + 2 ^ 32
    → c.end_addr_offset < 2 ^ 32
    → (region_bad c ≡ false)
      × (c.end_addr_offset < c.start_addr_offset + 55 + c.item_max_num * c.item_max_size)
unfolding region_bad
oversized_passes c nz few small large room last =
    ground (arith, product_divides c.item_max_num c.item_max_size nz small)

-- What an accepted configuration is like: there are at most 253 sub-regions; the header ends
-- before the first one starts, each ends before the next one starts, and the last one ends before
-- the mailbox does; and each covers its header and items, or these pass 2 ^ 32 bytes.
pub record IsLayout (mb_cfg : MbConfig) (cfg : CfgArray) : Type 0 where
  pub some_regions : 0 < mb_cfg.num_sub_regions
  pub few_regions : mb_cfg.num_sub_regions ≤ mb_max_sub_region_num
  pub header_first : header_bytes mb_cfg.num_sub_regions < (cfg 0).start_addr_offset
  pub in_order :
      (j : ℕ)
      → j + 1 < mb_cfg.num_sub_regions
      → (cfg j).end_addr_offset < (cfg (j + 1)).start_addr_offset
  pub inside : (j : ℕ) → j + 1 ≡ mb_cfg.num_sub_regions → (cfg j).end_addr_offset < mb_cfg.mb_size
  pub covers :
      (j : ℕ)
      → j < mb_cfg.num_sub_regions
      → (cfg j).end_addr_offset < 2 ^ 32
      → ((cfg j).start_addr_offset + 55 + (cfg j).item_max_num * (cfg j).item_max_size
          ≤ (cfg j).end_addr_offset)
        ⊎ (2 ^ 32 ≤ 55 + (cfg j).item_max_num * (cfg j).item_max_size)

-- `LibMB_Boundary_Check` accepts only layouts that are in order, without overlap, inside the
-- mailbox, and that cover their items unless header and items pass 2 ^ 32 bytes.
pub boundary_check-IsLayout :
    (mb_cfg : MbConfig) (cfg : CfgArray) → boundary_check mb_cfg cfg ≡ true → IsLayout mb_cfg cfg
boundary_check-IsLayout mb_cfg cfg h = record {
  some_regions = parts.0;
  few_regions = parts.1;
  header_first = ground (arith, gap 0 (omega arith));
  in_order = λ j l. ground (arith, gap (j + 1) (omega arith), previous j);
  inside = λ j e. ground (arith, gap (j + 1) (omega arith), previous j);
  covers = λ j l.
      region_covers (cfg j) (regions_good_at num 0 cfg j parts.2 (omega arith) (omega arith));
}
  where
    num : ℕ
    num = mb_cfg.num_sub_regions

    parts :
        (0 < num)
        × (num ≤ mb_max_sub_region_num)
        × (regions_good num 0 cfg ≡ true)
        × (gaps_good (num + 1) 0 mb_cfg cfg ≡ true)
    parts = unfold boundary_check in ground arith

    gap :
        (j : ℕ)
        → j ≤ num
        → (region_end mb_cfg cfg j < region_limit mb_cfg cfg j)
          × (region_limit mb_cfg cfg j ≤ mb_cfg.mb_size)
    gap j l = gaps_good_at (num + 1) 0 mb_cfg cfg j parts.3 (omega arith) (omega arith)

    previous : (j : ℕ) → cfg (j + 1 - 1) ≡ cfg j
    previous j = ap cfg (omega arith)

-- An accepted sub-region has no more items than the library allows.
pub few_items :
    (mb_cfg : MbConfig) (cfg : CfgArray) (j : ℕ)
    → boundary_check mb_cfg cfg ≡ true
    → j < mb_cfg.num_sub_regions
    → (cfg j).item_max_num ≤ mb_max_item_num
unfolding boundary_check region_bad
few_items mb_cfg cfg j h l =
    let good : regions_good mb_cfg.num_sub_regions 0 cfg ≡ true = ground arith in
    let one = regions_good_at mb_cfg.num_sub_regions 0 cfg j good (omega arith) (omega arith) in
    ground arith

-- A mailbox of one sub-region that starts behind the header and ends inside the mailbox is accepted
-- though the sub-region does not cover its items, where its header and items together, but not its
-- items alone, pass 2 ^ 32 bytes, the items are no more than the library allows, and the end is not
-- before what the sum wraps to.
pub oversized_accepted :
    (mb_cfg : MbConfig) (cfg : CfgArray)
    → mb_cfg.num_sub_regions ≡ 1
    → header_bytes 1 < (cfg 0).start_addr_offset
    → (cfg 0).end_addr_offset < mb_cfg.mb_size
    → (cfg 0).item_max_num ≢ 0
    → (cfg 0).item_max_num ≤ mb_max_item_num
    → (cfg 0).item_max_num * (cfg 0).item_max_size < 2 ^ 32
    → 2 ^ 32 < 55 + (cfg 0).item_max_num * (cfg 0).item_max_size
    → (cfg 0).start_addr_offset + 55 + (cfg 0).item_max_num * (cfg 0).item_max_size
      ≤ (cfg 0).end_addr_offset + 2 ^ 32
    → (cfg 0).end_addr_offset < 2 ^ 32
    → (boundary_check mb_cfg cfg ≡ true)
      × ((cfg 0).end_addr_offset
          < (cfg 0).start_addr_offset + 55 + (cfg 0).item_max_num * (cfg 0).item_max_size)
unfolding boundary_check regions_good gaps_good
oversized_accepted mb_cfg cfg one first inside nz few small large room last =
    let (passes, short) = oversized_passes (cfg 0) nz few small large room last in
    (rw (one, passes) (ground arith), short)

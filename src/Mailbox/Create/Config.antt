-- ===== src/Mailbox/Create/Config.antt =====
-- A configuration that `LibMB_Create` accepts, and where its sub-regions lie.
use rtss_mailbox_umd.Base.{ℕ, zero, suc, ◌+◌, ◌-◌, ◌*◌, ◌^◌, ◌≤◌, ◌<◌, ◌≡◌, ◌≢◌, arith, true}
use rtss_mailbox_umd.Memory.Word.{Apart}
use rtss_mailbox_umd.Mailbox.Layout.{MbConfig, SubRgnConfig, mb_max_size}
use rtss_mailbox_umd.Mailbox.Create.{CfgArray, boundary_check, header_bytes}
use rtss_mailbox_umd.Mailbox.Create.Boundary.{SmallItems, IsLayout, boundary_check-IsLayout}

-- A sub-region with items, whose size the library allows, and a name outside the mailbox.
pub record IsRegion (mb size : ℕ) (c : SubRgnConfig) : Type 0 where
  pub end_small : c.end_addr_offset < 2 ^ 32
  pub some_items : 0 < c.item_max_num
  pub some_bytes : 0 < c.item_max_size
  pub size_allowed : c.item_max_size ≤ mb_max_size
  pub items_small : SmallItems c
  pub name_there : c.name ≢ 0
  pub name_apart : Apart mb size c.name 16

-- A configuration that the check accepts.
pub record IsConfig (mb : ℕ) (mb_cfg : MbConfig) (cfg : CfgArray) : Type 0 where
  pub placed : mb ≢ 0
  pub accepted : boundary_check mb_cfg cfg ≡ true
  pub region : (j : ℕ) → j < mb_cfg.num_sub_regions → IsRegion mb mb_cfg.mb_size (cfg j)

module _ (mb : ℕ) (mb_cfg : MbConfig) (cfg : CfgArray) (ok : IsConfig mb mb_cfg cfg) where
  abbrev pub num : ℕ
  num = mb_cfg.num_sub_regions

  abbrev pub start : ℕ → ℕ
  start j = (cfg j).start_addr_offset

  abbrev pub last : ℕ → ℕ
  last j = (cfg j).end_addr_offset

  pub layout : IsLayout mb_cfg cfg
  layout = boundary_check-IsLayout mb_cfg cfg ok.accepted

  pub covers :
      (j : ℕ) → j < num → start j + 55 + (cfg j).item_max_num * (cfg j).item_max_size ≤ last j
  covers j l =
      omega (arith, layout.covers j l (ok.region j l).end_small, (ok.region j l).items_small)

  ordered : (d j : ℕ) → j + 1 + d < num → last j < start (j + 1 + d)
  ordered zero j l =
      let e : j + 1 + 0 ≡ j + 1 = omega arith in rw e (layout.in_order j (omega arith))
  ordered (suc d) j l =
      let e : j + 1 + suc d ≡ j + 1 + d + 1 = omega arith in
      rw e (
        omega (
          arith,
          ordered d j (omega arith),
          covers (j + 1 + d) (omega arith),
          layout.in_order (j + 1 + d) (omega arith),
        ))

  pub before : (j k : ℕ) → j < k → k < num → last j < start k
  before j k l u =
      let e : j + 1 + (k - j - 1) ≡ k = omega arith in
      rw (← e) (ordered (k - j - 1) j (omega arith))

  ends : (left j : ℕ) → j + left + 1 ≡ num → last j < mb_cfg.mb_size
  ends zero j e = layout.inside j (omega arith)
  ends (suc left) j e = omega (
    arith,
    ends left (j + 1) (omega arith),
    layout.in_order j (omega arith),
    covers (j + 1) (omega arith),
  )

  pub within : (j : ℕ) → j < num → last j < mb_cfg.mb_size
  within j l = ends (num - j - 1) j (omega arith)

  header_end : 32 + 8 * num ≤ header_bytes num
  header_end = omega (arith, layout.some_regions, layout.few_regions)

  pub header : (j : ℕ) → j < num → 32 + 8 * num < start j
  header zero l = omega (arith, header_end, layout.header_first)
  header (suc j) l = omega (
    arith,
    header_end,
    layout.header_first,
    covers 0 (omega arith),
    before 0 (suc j) (omega arith) l,
  )

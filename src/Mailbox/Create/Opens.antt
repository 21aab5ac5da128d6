-- ===== src/Mailbox/Create/Opens.antt =====
-- A mailbox that `LibMB_Create` has made is open, and empty, in every sub-region.
use rtss_mailbox_umd.Base.{
  ℕ, ◌+◌, ◌%◌, ◌≤◌, ◌<◌, ◌≡◌, refl, ap, ◌∙◌, arith, true, some, [], ne→==, tabulate,
}
use rtss_mailbox_umd.Memory.{Memory, get_reg, set_reg, libmbcopy_bytes}
use rtss_mailbox_umd.Memory.Word.{get_reg-set_reg, get_reg-set_reg-Apart, set_reg-Apart}
use rtss_mailbox_umd.Mailbox.Layout.{MbConfig, SubRgnConfig, mb_e_success, mb_magic_number}
use rtss_mailbox_umd.Mailbox.Layout.MbDesc
use rtss_mailbox_umd.Mailbox.Ring.Contents.{
  capacity, item_size, in_index, out_index, item_count, ring_base,
}
use rtss_mailbox_umd.Mailbox.Ring.Item.{item}
use rtss_mailbox_umd.Mailbox.Access.{sub_region_base}
use rtss_mailbox_umd.Mailbox.Access.Open.{IsOpen, queue, queue_cap, queue_size}
use rtss_mailbox_umd.Mailbox.Create.{CfgArray, init_mailbox, finish_create, create, create_fuel}
use rtss_mailbox_umd.Mailbox.Create.Boundary.{few_items}
use rtss_mailbox_umd.Mailbox.Create.Config.{IsRegion, IsConfig, layout, header}
use rtss_mailbox_umd.Mailbox.Create.Rounds.{Ready, Ready-kept, init_regions_runs}
use rtss_mailbox_umd.Mailbox.Ring.Indices.{between_cases}

-- Sub-region `j` of a created mailbox: open, empty, and as configured.
pub record IsOpened (m : Memory) (mb j : ℕ) (c : SubRgnConfig) : Type 0 where
  pub ready : IsOpen m mb j
  pub none_in : queue m mb j ≡ []
  pub cap : queue_cap m mb j ≡ c.item_max_num
  pub size : queue_size m mb j ≡ c.item_max_size
  pub base : sub_region_base m mb j ≡ mb + c.start_addr_offset

module _ (mb : ℕ) (mb_cfg : MbConfig) (cfg : CfgArray) (ok : IsConfig mb mb_cfg cfg) where
  -- the memory at the start of the loop
  abbrev titled : Memory → Memory
  titled m =
      set_reg
        (set_reg
          (set_reg (libmbcopy_bytes m mb mb_cfg.name 16) (MbDesc.num_of_sub_region mb)
            mb_cfg.num_sub_regions)
          (MbDesc.mb_size mb) mb_cfg.mb_size)
        (MbDesc.mb_prio mb) mb_cfg.mb_prio

  few : mb_cfg.num_sub_regions ≤ 253
  few = (layout mb mb_cfg cfg ok).few_regions

  titled_count :
      (m : Memory) → get_reg (titled m) (MbDesc.num_of_sub_region mb) ≡ mb_cfg.num_sub_regions
  titled_count m =
      get_reg-set_reg-Apart _ (MbDesc.mb_prio mb) (MbDesc.num_of_sub_region mb) mb_cfg.mb_prio
        (omega arith)
      ∙ get_reg-set_reg-Apart _ (MbDesc.mb_size mb) (MbDesc.num_of_sub_region mb) mb_cfg.mb_size
          (omega arith)
      ∙ get_reg-set_reg _ (MbDesc.num_of_sub_region mb) mb_cfg.num_sub_regions (omega (arith, few))

  -- What the code has made, before the magic number is stored.
  init_mailbox_runs :
      (m : Memory)
      → (m' : Memory) × (init_mailbox create_fuel m mb mb_cfg cfg ≡ some (true, m'))
        × (get_reg m' (MbDesc.num_of_sub_region mb) ≡ mb_cfg.num_sub_regions)
        × ((j : ℕ) → j < mb_cfg.num_sub_regions → Ready mb mb_cfg cfg ok m' j)
  unfolding init_mailbox
  init_mailbox_runs m =
      let (m', runs, count, all) =
        init_regions_runs mb mb_cfg cfg ok mb_cfg.num_sub_regions 0 create_fuel (titled m)
          (omega arith) (omega (arith, few)) (titled_count m) (λ j l. absurd (omega arith)) in
      (m', rw (ne→== mb 0 ok.placed) runs, count, all)

  -- A sub-region that is ready in a created mailbox is open and empty.
  Ready-IsOpened :
      (m : Memory) (j : ℕ)
      → j < mb_cfg.num_sub_regions
      → get_reg m (MbDesc.magic mb) ≡ mb_magic_number
      → get_reg m (MbDesc.num_of_sub_region mb) ≡ mb_cfg.num_sub_regions
      → Ready mb mb_cfg cfg ok m j
      → IsOpened m mb j (cfg j)
  Ready-IsOpened m j l magic count r = record {
    ready = record {
      not_null = ok.placed;
      created = magic;
      index_in = rw count l;
      sane = record {
        not_null = omega (arith, ok.placed);
        capacity_small = rw cap (few_items mb_cfg cfg j ok.accepted l);
        size_small = rw size c.size_allowed;
        in_range = rw (cap, at_in) c.some_items;
        out_range = rw (cap, at_out) c.some_items;
      };
      fits = record {
        size_pos = rw size c.some_bytes;
        bytes_small = rw (cap, size) (omega (arith, c.items_small));
      };
      behind = rw r.entered (omega (arith, header mb mb_cfg cfg ok j l));
    };
    none_in =
        ap
          (λ (n : ℕ). tabulate n (λ k.
            item m (ring_base m base) (item_size m base)
              ((out_index m base + k) % capacity m base)))
          none_there;
    cap = cap;
    size = size;
    base = ap (λ (t : ℕ). mb + t) r.entered;
  }
    where
      c : IsRegion mb mb_cfg.mb_size (cfg j)
      c = ok.region j l

      base : ℕ
      base = sub_region_base m mb j

      cap : capacity m (sub_region_base m mb j) ≡ (cfg j).item_max_num
      cap = rw r.entered r.sized.0

      size : item_size m (sub_region_base m mb j) ≡ (cfg j).item_max_size
      size = rw r.entered r.sized.1

      at_in : in_index m (sub_region_base m mb j) ≡ 0
      at_in = rw r.entered r.sized.2

      at_out : out_index m (sub_region_base m mb j) ≡ 0
      at_out = rw r.entered r.sized.3

      none_there : item_count m (sub_region_base m mb j) ≡ 0
      none_there =
          rw (cap, at_in, at_out)
            (omega (arith, between_cases (cfg j).item_max_num 0 0 c.some_items c.some_items))

  -- The store of the magic number, which comes last.
  finished :
      (m : Memory) (j : ℕ)
      → j < mb_cfg.num_sub_regions
      → get_reg m (MbDesc.num_of_sub_region mb) ≡ mb_cfg.num_sub_regions
      → Ready mb mb_cfg cfg ok m j
      → let m' = set_reg m (MbDesc.magic mb) mb_magic_number in
        (get_reg m' (MbDesc.magic mb) ≡ mb_magic_number)
        × (get_reg m' (MbDesc.num_of_sub_region mb) ≡ mb_cfg.num_sub_regions)
        × Ready mb mb_cfg cfg ok m' j
  finished m j l count r = (
    get_reg-set_reg m (MbDesc.magic mb) mb_magic_number (omega arith),
    get_reg-set_reg-Apart m (MbDesc.magic mb) (MbDesc.num_of_sub_region mb) mb_magic_number
          (omega arith)
        ∙ count,
    Ready-kept mb mb_cfg cfg ok m (set_reg m (MbDesc.magic mb) mb_magic_number) j
        (λ p lo u. set_reg-Apart m (MbDesc.magic mb) mb_magic_number p (omega arith))
        (λ p lo u.
          set_reg-Apart m (MbDesc.magic mb) mb_magic_number p
            (omega (arith, header mb mb_cfg cfg ok j l)))
        r,
  )

  pub create-IsOpened :
      (m : Memory)
      → (m' : Memory) × (create m mb (some mb_cfg) (some cfg) ≡ some (mb_e_success, m'))
        × ((j : ℕ) → j < mb_cfg.num_sub_regions → IsOpened m' mb j (cfg j))
  unfolding create finish_create
  create-IsOpened m =
      let (m', runs, count, all) = init_mailbox_runs m in
      (
        set_reg m' (MbDesc.magic mb) mb_magic_number,
        rw (ne→== mb 0 ok.placed, ok.accepted, runs) refl,
        λ j l.
            let (magic, count', r) = finished m' j l count (all j l) in
            Ready-IsOpened (set_reg m' (MbDesc.magic mb) mb_magic_number) j l magic count' r,
      )

-- With a mailbox address that is not NULL and a configuration that the check accepts, whose
-- sub-regions have offsets of 32 bits and at least one item, the items neither empty nor larger
-- than the library allows and together, with the header, of less than 2 ^ 32 bytes, and names
-- that are not NULL and lie outside the mailbox:
-- `LibMB_Create` succeeds, and each sub-region of the mailbox is then open and empty, with the
-- capacity and the item size that are configured.
pub create_opens :
    (m : Memory) (mb : ℕ) (mb_cfg : MbConfig) (cfg : CfgArray) (j : ℕ)
    → IsConfig mb mb_cfg cfg
    → j < mb_cfg.num_sub_regions
    → (m' : Memory) × (create m mb (some mb_cfg) (some cfg) ≡ some (mb_e_success, m'))
      × IsOpen m' mb j
      × (queue m' mb j ≡ [])
      × (queue_cap m' mb j ≡ (cfg j).item_max_num)
      × (queue_size m' mb j ≡ (cfg j).item_max_size)
create_opens m mb mb_cfg cfg j ok l =
    let (m', made, all) = create-IsOpened mb mb_cfg cfg ok m in
    let o = all j l in (m', made, o.ready, o.none_in, o.cap, o.size)

-- ===== src/Mailbox/Create/Rounds.antt =====
-- The loop of `LibMB_Init_Mailbox` over an accepted configuration: it finishes every sub-region.
use rtss_mailbox_umd.Base.{
  ℕ, zero, suc, ◌+◌, ◌*◌, ◌≤◌, ◌<◌, ◌≡◌, ◌⊎◌, refl, ◌∙◌, arith, true, some, lt→ltb, le→ltb, ne→==,
  dec_lt,
}
use rtss_mailbox_umd.Memory.{Memory, get_reg, set_reg}
use rtss_mailbox_umd.Memory.Word.{
  get_reg_ext, get_reg-set_reg, get_reg-set_reg-Apart, set_reg-Apart,
}
use rtss_mailbox_umd.Mailbox.Layout.{MbConfig}
use rtss_mailbox_umd.Mailbox.Layout.MbDesc
use rtss_mailbox_umd.Mailbox.Create.{CfgArray, init_region, init_regions}
use rtss_mailbox_umd.Mailbox.Create.Boundary.{few_items}
use rtss_mailbox_umd.Mailbox.Create.Region.{init_region_registers, init_region-outside}
use rtss_mailbox_umd.Mailbox.Create.Config.{IsConfig, covers, before, within, header}

module _ (mb : ℕ) (mb_cfg : MbConfig) (cfg : CfgArray) (ok : IsConfig mb mb_cfg cfg) where
  -- the two stores of a round into the header
  abbrev entry : Memory → ℕ → Memory
  entry m i =
      set_reg (set_reg m (MbDesc.sub_region_start_offset mb i) (cfg i).start_addr_offset)
        (MbDesc.sub_region_end_offset mb i) (cfg i).end_addr_offset

  entry_start :
      (m : Memory) (i : ℕ)
      → i < mb_cfg.num_sub_regions
      → get_reg (entry m i) (MbDesc.sub_region_start_offset mb i) ≡ (cfg i).start_addr_offset
  entry_start m i l =
      get_reg-set_reg-Apart _ (MbDesc.sub_region_end_offset mb i)
        (MbDesc.sub_region_start_offset mb i) (cfg i).end_addr_offset (omega arith)
      ∙ get_reg-set_reg m (MbDesc.sub_region_start_offset mb i) (cfg i).start_addr_offset
          (omega (arith, covers mb mb_cfg cfg ok i l, (ok.region i l).end_small))

  abbrev round : Memory → ℕ → Memory
  round m i = init_region (entry m i) (mb + (cfg i).start_addr_offset) (cfg i)

  round-outside :
      (m : Memory) (i : ℕ)
      → i < mb_cfg.num_sub_regions
      → (p : ℕ) → (p < mb + 32 + 8 * i) ⊎ (mb + 40 + 8 * i ≤ p)
      → (p < mb + (cfg i).start_addr_offset) ⊎ (mb + (cfg i).start_addr_offset + 56 ≤ p)
      → round m i p ≡ m p
  round-outside m i l p out away =
      init_region-outside (entry m i) (mb + (cfg i).start_addr_offset) (cfg i)
        (omega (arith, ok.placed)) (ok.region i l).name_there
        (omega (
          arith,
          (ok.region i l).name_apart,
          within mb mb_cfg cfg ok i l,
          covers mb mb_cfg cfg ok i l,
        ))
        p away
      ∙ set_reg-Apart _ (MbDesc.sub_region_end_offset mb i) (cfg i).end_addr_offset p (omega arith)
      ∙ set_reg-Apart m (MbDesc.sub_region_start_offset mb i) (cfg i).start_addr_offset p
          (omega arith)

  -- Sub-region `j` stands in the header, and its registers are those of an empty ring.
  pub record Ready (m : Memory) (j : ℕ) : Type 0 where
    pub entered : get_reg m (MbDesc.sub_region_start_offset mb j) ≡ (cfg j).start_addr_offset
    pub sized :
        (get_reg m (mb + (cfg j).start_addr_offset + 40) ≡ (cfg j).item_max_num)
        × (get_reg m (mb + (cfg j).start_addr_offset + 44) ≡ (cfg j).item_max_size)
        × (get_reg m (mb + (cfg j).start_addr_offset + 48) ≡ 0)
        × (get_reg m (mb + (cfg j).start_addr_offset + 52) ≡ 0)

  -- Only these bytes matter to it.
  pub Ready-kept :
      (m m' : Memory) (j : ℕ)
      → ((p : ℕ) → mb + 32 + 8 * j ≤ p → p < mb + 40 + 8 * j → m' p ≡ m p)
      → ((p : ℕ)
          → mb + (cfg j).start_addr_offset ≤ p
          → p < mb + (cfg j).start_addr_offset + 56
          → m' p ≡ m p)
      → Ready m j
      → Ready m' j
  Ready-kept m m' j head body r = record {
    entered =
        get_reg_ext m' m (MbDesc.sub_region_start_offset mb j)
          (λ p l u. head p (omega arith) (omega arith))
        ∙ r.entered;
    sized = (
      at 40 (omega arith) ∙ r.sized.0,
      at 44 (omega arith) ∙ r.sized.1,
      at 48 (omega arith) ∙ r.sized.2,
      at 52 (omega arith) ∙ r.sized.3,
    );
  }
    where
      at :
          (k : ℕ)
          → k + 4 ≤ 56
          → get_reg m' (mb + (cfg j).start_addr_offset + k)
            ≡ get_reg m (mb + (cfg j).start_addr_offset + k)
      at k h =
          get_reg_ext m' m (mb + (cfg j).start_addr_offset + k)
            (λ p l u. body p (omega arith) (omega arith))

  round-Ready : (m : Memory) (i : ℕ) → i < mb_cfg.num_sub_regions → Ready (round m i) i
  round-Ready m i l = record {
    entered =
        get_reg_ext (round m i) (entry m i) (MbDesc.sub_region_start_offset mb i) (λ p lo u.
          init_region-outside (entry m i) (mb + (cfg i).start_addr_offset) (cfg i)
            (omega (arith, ok.placed)) (ok.region i l).name_there
            (omega (
              arith,
              (ok.region i l).name_apart,
              within mb mb_cfg cfg ok i l,
              covers mb mb_cfg cfg ok i l,
            ))
            p (omega (arith, header mb mb_cfg cfg ok i l)))
        ∙ entry_start m i l;
    sized =
        init_region_registers (entry m i) (mb + (cfg i).start_addr_offset) (cfg i)
          (omega (arith, few_items mb_cfg cfg i ok.accepted l))
          (omega (arith, (ok.region i l).size_allowed));
  }

  round_keeps :
      (m : Memory) (i j : ℕ) → j < i → i < mb_cfg.num_sub_regions → Ready m j → Ready (round m i) j
  round_keeps m i j h l =
      Ready-kept m (round m i) j
        (λ p lo u. round-outside m i l p (omega arith) (omega (arith, header mb mb_cfg cfg ok i l)))
        (λ p lo u.
          round-outside m i l p (omega (arith, header mb mb_cfg cfg ok j (omega arith))) (
            omega
              (arith, before mb mb_cfg cfg ok j i h l, covers mb mb_cfg cfg ok j (omega arith))))

  round_count :
      (m : Memory) (i : ℕ)
      → i < mb_cfg.num_sub_regions
      → get_reg (round m i) (MbDesc.num_of_sub_region mb) ≡ get_reg m (MbDesc.num_of_sub_region mb)
  round_count m i l =
      get_reg_ext (round m i) m (MbDesc.num_of_sub_region mb)
        (λ p lo u. round-outside m i l p (omega arith) (omega (arith, header mb mb_cfg cfg ok i l)))

  init_regions-round :
      (i fuel : ℕ) (m : Memory)
      → i < mb_cfg.num_sub_regions
      → get_reg m (MbDesc.num_of_sub_region mb) ≡ mb_cfg.num_sub_regions
      → init_regions (suc fuel) i m mb cfg ≡ init_regions fuel (i + 1) (round m i) mb cfg
  unfolding init_regions
  init_regions-round i fuel m l count =
      rw
        (
          count,
          lt→ltb _ _ l,
          entry_start m i l,
          ne→== (mb + (cfg i).start_addr_offset) 0 (omega (arith, ok.placed)),
        )
        refl

  -- With more fuel than rounds left, the loop finishes all sub-regions.
  pub init_regions_runs :
      (left i fuel : ℕ) (m : Memory)
      → i + left ≡ mb_cfg.num_sub_regions
      → left < fuel
      → get_reg m (MbDesc.num_of_sub_region mb) ≡ mb_cfg.num_sub_regions
      → ((j : ℕ) → j < i → Ready m j)
      → (m' : Memory) × (init_regions fuel i m mb cfg ≡ some (true, m'))
        × (get_reg m' (MbDesc.num_of_sub_region mb) ≡ mb_cfg.num_sub_regions)
        × ((j : ℕ) → j < mb_cfg.num_sub_regions → Ready m' j)
  unfolding init_regions
  init_regions_runs left i zero m e enough count done = absurd (omega arith)
  init_regions_runs zero i (suc fuel) m e enough count done =
      let over : mb_cfg.num_sub_regions ≤ i = omega arith in
      (m, rw (count, le→ltb _ _ over) refl, count, λ j l. done j (omega arith))
  init_regions_runs (suc left) i (suc fuel) m e enough count done =
      let l : i < mb_cfg.num_sub_regions = omega arith in
      let (m', runs, count', all) =
        init_regions_runs left (i + 1) fuel (round m i) (omega arith) (omega arith)
          (round_count m i l ∙ count)
          (λ j h. elim (dec_lt j i) [
            | yes p ↦ round_keeps m i j p l (done j p)
            | no p ↦ let same : i ≡ j = omega arith in rw (← same) (round-Ready m i l)
          ]) in
      (m', init_regions-round i fuel m l count ∙ runs, count', all)

-- ===== src/Mailbox/Create/Tests.antt =====
-- Configurations of one and of two sub-regions, and runs of the theorems on it.
use rtss_mailbox_umd.Base.{
  ◌%◌, Option, some, none, zero, suc, ℕ, List, [], ◌∷◌, ◌++◌, ◌+◌, ◌*◌, ◌<◌, ◌≡◌, refl, arith, true,
}
use rtss_mailbox_umd.Mailbox.Layout.{MbConfig, SubRgnConfig, mb_e_success, mb_e_null_input}
use rtss_mailbox_umd.Mailbox.Create.{
  CfgArray, region_bad, regions_good, gaps_good, boundary_check, create, init_mailbox, init_regions,
}
use rtss_mailbox_umd.Memory.{Memory, get_reg, set_reg, libmbcopy_bytes, loops, copy_run}
use rtss_mailbox_umd.Base.Int.{ℤ}
use rtss_mailbox_umd.Mailbox.Access.Open.{IsOpen, queue, queue_cap, queue_size}
use rtss_mailbox_umd.Mailbox.Create.Config.{IsRegion, IsConfig}
use rtss_mailbox_umd.Mailbox.Create.Opens.{create_opens}
use rtss_mailbox_umd.Mailbox.Create.Use.{create_turns_fifo}
use rtss_mailbox_umd.Mailbox.Access.Fifo.{writes, reads}
use rtss_mailbox_umd.Mailbox.Access.Fifo.Turns.{Turn, first, second, Beside, AreOff, turns}
use rtss_mailbox_umd.Mailbox.Create.Boundary.{boundary_check-IsLayout, oversized_accepted, IsLayout}

abbrev one_region : ℕ → ℕ → ℕ → ℕ → SubRgnConfig
one_region from upto num size = record {
  name = 9000;
  sender = 1;
  receiver = 2;
  prot = 0;
  sig = 3;
  mode = 1;
  prio = 0;
  start_addr_offset = from;
  end_addr_offset = upto;
  item_max_num = num;
  item_max_size = size;
}

abbrev demo_config : MbConfig
demo_config = record {
  name = 8000;
  mb_size = 4096;
  mb_prio = 0;
  num_sub_regions = 1;
  mblocator = 0;
}

abbrev demo_regions : CfgArray
demo_regions i = one_region 44 115 4 4

demo_accepted : boundary_check demo_config demo_regions ≡ true
unfolding boundary_check regions_good gaps_good region_bad
demo_accepted = refl

boundary_check-IsLayout_example : IsLayout demo_config demo_regions
boundary_check-IsLayout_example = boundary_check-IsLayout demo_config demo_regions demo_accepted

-- 262128 items of 16385 bytes: with the header they pass 2 ^ 32 by 39
abbrev large_regions : CfgArray
large_regions i = one_region 44 200 262128 16385

oversized_accepted_example :
    (boundary_check demo_config large_regions ≡ true) × (200 < 44 + 55 + 262128 * 16385)
oversized_accepted_example =
    oversized_accepted demo_config large_regions refl (omega arith) (omega arith) (omega arith)
      (omega arith) (omega arith) (omega arith) (omega arith) (omega arith)

abbrev code_of : Option (ℤ × Memory) → ℤ
code_of none = mb_e_null_input
code_of (some (r, m)) = r

abbrev reg_of : ℕ → Option (ℤ × Memory) → ℕ
reg_of a none = 0
reg_of a (some (r, m)) = get_reg m a

abbrev created : Option (ℤ × Memory)
created = create (λ p. p % 251) 1000 (some demo_config) (some demo_regions)

created_code : code_of created ≡ mb_e_success
unfolding create boundary_check regions_good region_bad gaps_good init_mailbox init_regions get_reg
    set_reg libmbcopy_bytes loops copy_run
created_code = refl

-- the magic number, the start of the sub-region, and its capacity and indices
created_registers :
    (reg_of 1016 created ≡ 0x4d4c_3130)
    × (reg_of 1032 created ≡ 44)
    × (reg_of 1084 created ≡ 4)
    × (reg_of 1092 created ≡ 0)
    × (reg_of 1096 created ≡ 0)
unfolding create boundary_check regions_good region_bad gaps_good init_mailbox init_regions get_reg
    set_reg libmbcopy_bytes loops copy_run
created_registers = (refl, refl, refl, refl, refl)

demo-IsConfig : IsConfig 1000 demo_config demo_regions
demo-IsConfig = record {
  placed = omega arith;
  accepted = demo_accepted;
  region = λ j l. record {
    end_small = omega arith;
    some_items = omega arith;
    some_bytes = omega arith;
    size_allowed = omega arith;
    items_small = omega arith;
    name_there = omega arith;
    name_apart = omega arith;
  };
}

create_opens_example :
    (m' : Memory) × (create (λ p. p % 251) 1000 (some demo_config) (some demo_regions)
      ≡ some (mb_e_success, m'))
    × IsOpen m' 1000 0
    × (queue m' 1000 0 ≡ [])
    × (queue_cap m' 1000 0 ≡ 4)
    × (queue_size m' 1000 0 ≡ 4)
create_opens_example =
    create_opens (λ p. p % 251) 1000 demo_config demo_regions 0 demo-IsConfig (omega arith)

abbrev two_config : MbConfig
two_config = record { name = 8000; mb_size = 4096; mb_prio = 0; num_sub_regions = 2; mblocator = 0 }

abbrev two_regions : CfgArray
two_regions zero = one_region 52 123 4 4
two_regions (suc i) = one_region 124 203 3 8

two_accepted : boundary_check two_config two_regions ≡ true
unfolding boundary_check regions_good gaps_good region_bad
two_accepted = refl

two-IsRegion : (j : ℕ) → IsRegion 1000 4096 (two_regions j)
two-IsRegion zero = record {
  end_small = omega arith;
  some_items = omega arith;
  some_bytes = omega arith;
  size_allowed = omega arith;
  items_small = omega arith;
  name_there = omega arith;
  name_apart = omega arith;
}
two-IsRegion (suc j) = record {
  end_small = omega arith;
  some_items = omega arith;
  some_bytes = omega arith;
  size_allowed = omega arith;
  items_small = omega arith;
  name_there = omega arith;
  name_apart = omega arith;
}

two-IsConfig : IsConfig 1000 two_config two_regions
two-IsConfig = record {
  placed = omega arith;
  accepted = two_accepted;
  region = λ j l. two-IsRegion j;
}

-- two items to the first sub-region, one to the second, and what is read of each
abbrev some_turns : List Turn
some_turns =
    first (writes 6000 2)
    ∷ second (writes 6100 1)
    ∷ first (reads 7000 1)
    ∷ second (reads 7100 2)
    ∷ first (writes 6200 5)
    ∷ []

some_turns-AreOff : AreOff 1000 4096 0 1 4 8 some_turns
some_turns-AreOff = (
  (omega arith, omega arith),
  (
    (omega arith, omega arith),
    (
      (omega arith, omega arith),
      ((omega arith, omega arith), ((omega arith, omega arith), omega arith)),
    ),
  ),
)

create_turns_fifo_example :
    (m' : Memory) × (create (λ p. p % 251) 1000 (some two_config) (some two_regions)
      ≡ some (mb_e_success, m'))
    × (let (m'', l, k) = turns 1000 4096 0 1 some_turns m' in
        Beside 1000 4096 0 1 m''
        × (l.accepted ≡ l.delivered ++ queue m'' 1000 0)
        × (k.accepted ≡ k.delivered ++ queue m'' 1000 1))
create_turns_fifo_example =
    create_turns_fifo (λ p. p % 251) 1000 two_config two_regions 0 1 two-IsConfig (omega arith)
      (omega arith) some_turns some_turns-AreOff

-- ===== src/Mailbox/Create.antt =====
-- The creation of a mailbox in middleware/safemlib/src/rtss_mailbox_lib.c: the layout of the
-- sub-regions, the check of a layout, and the initialisation. A pointer to a configuration is an
-- `Option`, `none` for NULL. The configuration array is a function of the index: what lies past
-- its end is whatever stands in memory there.
pub mod Boundary
pub mod Region
pub mod Config
pub mod Rounds
pub mod Opens
pub mod Use
pub mod Tests
use rtss_mailbox_umd.Base.{
  ℕ, zero, suc, ◌+◌, ◌-◌, ◌*◌, ◌/◌, Bool, true, false, not, ◌&&◌, ◌||◌, ltb, leb, ◌==◌,
  if◌then◌else◌, u32, sub32, Option, none, some,
}
use rtss_mailbox_umd.Base.Int.{ℤ}
use rtss_mailbox_umd.Memory.{Memory, get_reg, set_reg, libmbcopy_bytes}
use rtss_mailbox_umd.Mailbox.Layout.{
  MbConfig, SubRgnConfig, mb_magic_number, mb_name_sz, mb_max_sub_region_num, mb_max_item_num,
  mb_sub_region_header_sz, mb_header_size, area_size, mb_e_success, mb_e_null_input,
  mb_e_invalid_cfg, mb_e_corrupt_mailbox,
}
use rtss_mailbox_umd.Mailbox.Layout.MbDesc
use rtss_mailbox_umd.Mailbox.Layout.SubRgnDesc

abbrev pub CfgArray : Type 0
CfgArray = ℕ → SubRgnConfig

abbrev pub update : CfgArray → ℕ → SubRgnConfig → CfgArray
update cfg i c j = if j == i then c else cfg j

-- x & ~0x3U: the two low bits cleared
abbrev pub align_down : ℕ → ℕ
align_down x = x / 4 * 4

-- sizeof(mb_desc_t) and the further areas, rounded up to 4
abbrev pub header_bytes : ℕ → ℕ
header_bytes num = align_down (u32 (mb_header_size + u32 (area_size * sub32 num 1) + 3))

abbrev pub item_bytes : SubRgnConfig → ℕ
item_bytes c = u32 (c.item_max_num * c.item_max_size)

-- One round of the loop of `LibMB_ChanMapInit`; `hsz` is reused behind the first round.
map_step : ℕ → ℕ → CfgArray → CfgArray × ℕ
map_step chan hsz cfg =
    let first_start = u32 (hsz + 4) in
    let start = u32 ((cfg (chan - 1)).end_addr_offset + 1) in
    if chan == 0
    then (
      update cfg chan (record (cfg chan) {
        start_addr_offset = first_start;
        end_addr_offset = u32 (first_start + (mb_sub_region_header_sz - 1) + item_bytes (cfg chan));
      }),
      mb_sub_region_header_sz - 1,
    )
    else (
      update cfg chan (record (cfg chan) {
        start_addr_offset = start;
        end_addr_offset = u32 (start + hsz + item_bytes (cfg chan));
      }),
      hsz,
    )

-- `left` rounds from `chan` on
pub map_from : ℕ → ℕ → ℕ → CfgArray → CfgArray
unfolding map_step
map_from zero chan hsz cfg = cfg
map_from (suc left) chan hsz cfg =
    let (cfg', hsz') = map_step chan hsz cfg in map_from left (chan + 1) hsz' cfg'

-- Behind the loop `chan` is the number of sub-regions, so the second test of the code never
-- passes. With no sub-region at all the first one reads entry 2 ^ 32 - 1.
pub chan_map_init : Option MbConfig → Option CfgArray → ℤ × Option CfgArray
unfolding map_from
chan_map_init none cfg = (mb_e_null_input, cfg)
chan_map_init (some mb_cfg) none = (mb_e_null_input, none)
chan_map_init (some mb_cfg) (some cfg) =
    let num = mb_cfg.num_sub_regions in
    let cfg' = map_from num 0 (header_bytes num) cfg in
    if leb num mb_max_sub_region_num
    then if ltb mb_cfg.mb_size (cfg' (sub32 num 1)).end_addr_offset
      then (mb_e_invalid_cfg, some cfg')
      else (mb_e_success, some cfg')
    else (mb_e_null_input, some cfg)

-- The test of the first loop of `LibMB_Boundary_Check`.
pub region_bad : SubRgnConfig → Bool
region_bad c =
    let hsz = mb_sub_region_header_sz - 1 in
    let valid_size = item_bytes c in
    let valid_range =
      not (c.item_max_num == 0) && not (valid_size / c.item_max_num == c.item_max_size) in
    let last = u32 (c.start_addr_offset + hsz + valid_size) in
    ltb mb_max_item_num c.item_max_num
    || leb c.end_addr_offset c.start_addr_offset
    || valid_range
    || leb last c.start_addr_offset
    || ltb c.end_addr_offset last

pub regions_good : ℕ → ℕ → CfgArray → Bool
regions_good zero i cfg = true
regions_good (suc left) i cfg = if region_bad (cfg i) then false else regions_good left (i + 1) cfg

-- The end of region `i` of the second loop, the header being region 0, and the start of the next.
abbrev pub region_end : MbConfig → CfgArray → ℕ → ℕ
region_end mb_cfg cfg i =
    if i == 0 then header_bytes mb_cfg.num_sub_regions else (cfg (i - 1)).end_addr_offset

abbrev pub region_limit : MbConfig → CfgArray → ℕ → ℕ
region_limit mb_cfg cfg i =
    if i == 0
    then (cfg 0).start_addr_offset
    else if i == mb_cfg.num_sub_regions
    then mb_cfg.mb_size
    else (cfg i).start_addr_offset

pub gaps_good : ℕ → ℕ → MbConfig → CfgArray → Bool
gaps_good zero i mb_cfg cfg = true
gaps_good (suc left) i mb_cfg cfg =
    let region_end_i = region_end mb_cfg cfg i in
    let limit = region_limit mb_cfg cfg i in
    if leb limit region_end_i || ltb mb_cfg.mb_size limit
    then false
    else gaps_good left (i + 1) mb_cfg cfg

pub boundary_check : MbConfig → CfgArray → Bool
boundary_check mb_cfg cfg =
    let num = mb_cfg.num_sub_regions in
    if leb num mb_max_sub_region_num && ltb 0 num
    then regions_good num 0 cfg && gaps_good (num + 1) 0 mb_cfg cfg
    else false

-- The stores of one round of the loop of `LibMB_Init_Mailbox` into the sub-region at `base`.
unfoldable pub init_region : Memory → ℕ → SubRgnConfig → Memory
init_region m base c =
    let m1 = libmbcopy_bytes m base c.name mb_name_sz in
    let m2 = set_reg m1 (SubRgnDesc.max_item_num base) c.item_max_num in
    let m3 = set_reg m2 (SubRgnDesc.max_item_size base) c.item_max_size in
    let m4 = set_reg m3 (SubRgnDesc.item_in_index base) 0 in
    let m5 = set_reg m4 (SubRgnDesc.item_out_index base) 0 in
    let m6 = set_reg m5 (SubRgnDesc.sender base) c.sender in
    let m7 = set_reg m6 (SubRgnDesc.receiver base) c.receiver in
    let m8 = set_reg m7 (SubRgnDesc.prot base) c.prot in
    let m9 = set_reg m8 (SubRgnDesc.sig base) c.sig in
    let m10 = set_reg m9 (SubRgnDesc.mode base) c.mode in set_reg m10 (SubRgnDesc.prio base) c.prio

-- The loop, whose bound is read from memory in each round. `none` means that the fuel ran out.
pub init_regions : ℕ → ℕ → Memory → ℕ → CfgArray → Option (Bool × Memory)
unfolding init_region
init_regions zero i m mb cfg = none
init_regions (suc fuel) i m mb cfg =
    let m1 = set_reg m (MbDesc.sub_region_start_offset mb i) (cfg i).start_addr_offset in
    let m2 = set_reg m1 (MbDesc.sub_region_end_offset mb i) (cfg i).end_addr_offset in
    let base = mb + get_reg m2 (MbDesc.sub_region_start_offset mb i) in
    let rest = init_regions fuel (i + 1) (init_region m2 base (cfg i)) mb cfg in
    if ltb i (get_reg m (MbDesc.num_of_sub_region mb))
    then if base == 0 then some (false, m2) else rest
    else some (true, m)

pub init_mailbox : ℕ → Memory → ℕ → MbConfig → CfgArray → Option (Bool × Memory)
init_mailbox fuel m mb mb_cfg cfg =
    let m1 = libmbcopy_bytes m mb mb_cfg.name mb_name_sz in
    let m2 = set_reg m1 (MbDesc.num_of_sub_region mb) mb_cfg.num_sub_regions in
    let m3 = set_reg m2 (MbDesc.mb_size mb) mb_cfg.mb_size in
    let m4 = set_reg m3 (MbDesc.mb_prio mb) mb_cfg.mb_prio in
    if mb == 0 then some (false, m) else init_regions fuel 0 m4 mb cfg

-- the rounds that `create` allows for: one more than the largest number of sub-regions
abbrev pub create_fuel : ℕ
create_fuel = 254

finish_create : ℕ → Option (Bool × Memory) → Option (ℤ × Memory)
finish_create mb none = none
finish_create mb (some (true, m)) = some (mb_e_success, set_reg m (MbDesc.magic mb) mb_magic_number)
finish_create mb (some (false, m)) = some (mb_e_corrupt_mailbox, m)

pub create : Memory → ℕ → Option MbConfig → Option CfgArray → Option (ℤ × Memory)
unfolding finish_create
create m mb none cfg = some (mb_e_null_input, m)
create m mb (some mb_cfg) none = some (mb_e_null_input, m)
create m mb (some mb_cfg) (some cfg) =
    if mb == 0
    then some (mb_e_null_input, m)
    else if boundary_check mb_cfg cfg
    then finish_create mb (init_mailbox create_fuel m mb mb_cfg cfg)
    else some (mb_e_invalid_cfg, m)

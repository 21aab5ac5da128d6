-- ===== src/Update/Ota.antt =====
-- The OTA buffer of apps/rtss-updater/lib/rtss_update/src/rtss_update_lib.c: one mapping that its
-- clients share and count. Each call is one step, since the lock is held over all that it does to
-- the context. The device is a parameter: what `open`, `ioctl` and `mmap` answer.
pub mod Shared
use rtss_mailbox_umd.Base.{
  ℕ, zero, suc, ◌+◌, ◌-◌, ◌==◌, Bool, ◌||◌, if◌then◌else◌, u32, List, [], ◌∷◌, ◌++◌, Option, none,
  some,
}
use rtss_mailbox_umd.Update.Crc.{e_ok, e_err}

-- struct rtss_ota_context; an address is 0 where it is NULL
pub record OtaContext : Type 0 where
  pub base_addr : ℕ
  pub s_va : ℕ
  pub refcount : ℕ
  pub size : ℕ

abbrev pub rtss_ota_ctx : OtaContext
rtss_ota_ctx = record { base_addr = 0; s_va = 0; refcount = 0; size = 0 }

-- rtss_upd_ota_mmap_data_t
pub record OtaMmapData : Type 0 where
  pub p_ota_base_addr : ℕ
  pub s_va : ℕ
  pub n_sizeof_buffer : ℕ

-- What the system answers: a descriptor, whether the call for the region fails, the region, and
-- the address of the mapping, `none` where it fails.
pub record Device : Type 0 where
  pub opened_fd : Option ℕ
  pub region_fails : Bool
  pub region_addr : ℕ
  pub region_size : ℕ
  pub map_addr : Option ℕ

-- What a call does to the process, in order.
pub data OtaAct : Type 0 where
  opens : (fd : ℕ) → OtaAct
  closes : (fd : ℕ) → OtaAct
  maps : (addr : ℕ) → (size : ℕ) → OtaAct
  unmaps : (addr : ℕ) → (size : ℕ) → OtaAct

pub record Outcome : Type 0 where
  pub ret : ℕ
  pub ctx : OtaContext
  pub client : OtaMmapData
  pub acts : List OtaAct

abbrev failed : OtaContext → OtaMmapData → List OtaAct → Outcome
failed ctx client acts = record { ret = e_err; ctx = ctx; client = client; acts = acts }

-- The client's copy of the context.
abbrev handed_out : OtaContext → OtaMmapData
handed_out ctx = record {
  p_ota_base_addr = ctx.base_addr;
  s_va = ctx.s_va;
  n_sizeof_buffer = ctx.size;
}

abbrev mapped_ctx : Device → ℕ → OtaContext
mapped_ctx dev addr = record {
  base_addr = addr;
  s_va = u32 dev.region_addr;
  refcount = 1;
  size = dev.region_size;
}

unfoldable pub map_ota_buffer_locked : Device → OtaContext → OtaMmapData → Outcome
map_ota_buffer_locked dev ctx client = elim dev.opened_fd [
  | none ↦ failed ctx client []
  | some fd ↦
      if dev.region_fails
      then failed ctx client (opens fd ∷ closes fd ∷ [])
      else elim dev.map_addr [
        | none ↦ failed ctx client (opens fd ∷ closes fd ∷ [])
        | some zero ↦ failed ctx client (opens fd ∷ maps 0 dev.region_size ∷ closes fd ∷ [])
        | some (suc a) ↦ record {
          ret = e_ok;
          ctx = mapped_ctx dev (suc a);
          client = handed_out (mapped_ctx dev (suc a));
          acts = opens fd ∷ maps (suc a) dev.region_size ∷ closes fd ∷ [];
        }
      ]
]

unfoldable pub get_ota_buffer : Device → OtaContext → OtaMmapData → Outcome
unfolding map_ota_buffer_locked
get_ota_buffer dev ctx client =
    if ctx.base_addr == 0 then map_ota_buffer_locked dev ctx client else record {
      ret = e_ok;
      ctx = record ctx { refcount = ctx.refcount + 1 };
      client = handed_out ctx;
      acts = [];
    }

-- `none` for a NULL pointer. The members that the client loses are cleared before the count is
-- looked at.
pub release_ota_buffer :
    OtaContext → Option OtaMmapData → ℕ × OtaContext × Option OtaMmapData × List OtaAct
release_ota_buffer ctx none = (e_err, ctx, none, [])
release_ota_buffer ctx (some client) =
    let client' = record client { p_ota_base_addr = 0; n_sizeof_buffer = 0 } in
    if ctx.refcount == 0
    then (e_err, ctx, some client', [])
    else if ctx.refcount == 1
    then (
      e_ok,
      record { base_addr = 0; s_va = 0; refcount = 0; size = 0 },
      some client',
      if ctx.base_addr == 0 then [] else unmaps ctx.base_addr ctx.size ∷ [],
    )
    else (e_ok, record ctx { refcount = ctx.refcount - 1 }, some client', [])

-- ===== src/Updater/Context/Balanced.antt =====
-- What `rtss_updater_mem_init` leaves open.
use mathlib.Core.Path.{subst}
use rtss_mailbox_umd.Base.{
  ℕ, zero, suc, ◌≡◌, ◌≢◌, ◌⊎◌, refl, ℕ_discrete, ne→==, arith, Bool, true, ◌&&◌, if◌then◌else◌,
  Option, none, some, List, [], ◌∷◌, Bool-cases, inl, inr,
}
use rtss_mailbox_umd.Api.Handle.{Uapi, Handle}
use rtss_mailbox_umd.Update.Crc.{e_ok}
use rtss_mailbox_umd.Update.Ota.{
  OtaContext, OtaMmapData, Device, get_ota_buffer, map_ota_buffer_locked,
}
use rtss_mailbox_umd.Updater.Command.{exit_success, exit_failure}
use rtss_mailbox_umd.Updater.Context.{
  MemEnv, MemCtx, no_ctx, fresh_mmap_data, opened_ok, tx_opened, rx_opened, attach_buffer, mem_init,
}

-- A buffer that is not given leaves the context of the library alone.
get_ota_buffer_kept :
    (fd : Option ℕ) (fails : Bool) (addr size : ℕ) (at : Option ℕ) (ota : OtaContext)
    (client : OtaMmapData)
    → let dev : Device = record {
      opened_fd = fd;
      region_fails = fails;
      region_addr = addr;
      region_size = size;
      map_addr = at;
    } in
      (get_ota_buffer dev ota client).ret ≢ e_ok → (get_ota_buffer dev ota client).ctx ≡ ota
unfolding get_ota_buffer map_ota_buffer_locked
get_ota_buffer_kept none fails addr size at ota client h = ground arith
get_ota_buffer_kept (some fd) fails addr size none ota client h = ground arith
get_ota_buffer_kept (some fd) fails addr size (some zero) ota client h = ground arith
get_ota_buffer_kept (some fd) fails addr size (some (suc a)) ota client h = ground arith

module _ (api : Uapi) (env : MemEnv) (ota : OtaContext) where
  abbrev both : MemCtx
  both = record (no_ctx ota) { tx = (tx_opened api env).handle; rx = (rx_opened api env).handle }

  -- The handles that have been opened by the end of the call.
  abbrev pub handles : List (Option Handle)
  handles =
      if env.calloc_ok && opened_ok (tx_opened api env)
      then (tx_opened api env).handle
        ∷ (if opened_ok (rx_opened api env) then (rx_opened api env).handle ∷ [] else [])
      else []

  abbrev IsBalanced : ℕ × MemCtx → Type 0
  IsBalanced (code, ctx) =
      (code ≡ exit_success)
        × (ctx.closed ≡ [])
        × (ctx.tx ≡ (tx_opened api env).handle)
        × (ctx.rx ≡ (rx_opened api env).handle)
        × (ctx.mmap_data ≡ some (get_ota_buffer env.device ota fresh_mmap_data).client)
        × (ctx.ota ≡ (get_ota_buffer env.device ota fresh_mmap_data).ctx)
      ⊎ (code ≡ exit_failure) × (ctx.closed ≡ handles) × (ctx.mmap_data ≡ none) × (ctx.ota ≡ ota)

  attach_buffer-IsBalanced :
      env.calloc_ok ≡ true
      → opened_ok (tx_opened api env) ≡ true
      → opened_ok (rx_opened api env) ≡ true
      → IsBalanced (attach_buffer api env both)
  unfolding attach_buffer
  attach_buffer-IsBalanced c t r =
      let got = get_ota_buffer env.device ota fresh_mmap_data in
      elim (ℕ_discrete got.ret 0) [
        | yes given ↦ rw given (inl (refl, refl, refl, refl, refl, refl))
        | no refused ↦
            rw (ne→== _ _ refused, c, t, r)
              (inr (
                refl,
                refl,
                refl,
                get_ota_buffer_kept env.device.opened_fd env.device.region_fails
                    env.device.region_addr env.device.region_size env.device.map_addr ota
                    fresh_mmap_data refused,
              ))
      ]

  -- `rtss_updater_mem_init` succeeds with both channels, the buffer, and nothing closed again; or it fails,
  -- has closed every handle that it has opened, and leaves the buffer of the library as it was.
  pub mem_init_balanced :
      let (code, ctx) = mem_init api env ota in
      (code ≡ exit_success)
        × (ctx.closed ≡ [])
        × (ctx.tx ≡ (tx_opened api env).handle)
        × (ctx.rx ≡ (rx_opened api env).handle)
        × (ctx.mmap_data ≡ some (get_ota_buffer env.device ota fresh_mmap_data).client)
        × (ctx.ota ≡ (get_ota_buffer env.device ota fresh_mmap_data).ctx)
      ⊎ (code ≡ exit_failure) × (ctx.closed ≡ handles) × (ctx.mmap_data ≡ none) × (ctx.ota ≡ ota)
  unfolding mem_init
  mem_init_balanced = elim (Bool-cases env.calloc_ok) [
    | inr c ↦ rw c (inr (refl, refl, refl, refl))
    | inl c ↦ elim (Bool-cases (opened_ok (tx_opened api env))) [
      | inr t ↦ rw (c, t) (inr (refl, refl, refl, refl))
      | inl t ↦ elim (Bool-cases (opened_ok (rx_opened api env))) [
        | inr r ↦ rw (c, t, r) (inr (refl, refl, refl, refl))
        | inl r ↦
            subst IsBalanced
              (let e : attach_buffer api env both ≡ mem_init api env ota = rw (c, t, r) refl in e)
              (attach_buffer-IsBalanced c t r)
      ]
    ]
  ]

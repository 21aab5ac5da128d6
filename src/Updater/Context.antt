-- ===== src/Updater/Context.antt =====
-- The channels and the buffer of the updater: `rtss_updater_mem_init` and `rtss_updater_mem_deinit` of
-- apps/rtss-updater/demo/src/rtss_updater_cmd.c, and `rtss_updater_mem_ctx_init` and
-- `rtss_updater_mem_ctx_deinit` of rtss_updater.c. Their pointers are those of static structures, and
-- not NULL.
pub mod Balanced
use rtss_mailbox_umd.Base.{
  ℕ, Bool, true, false, not, ◌==◌, if◌then◌else◌, Option, none, some, List, [], ◌∷◌,
}
use rtss_mailbox_umd.Base.Int.{ℤ, is_zero}
use rtss_mailbox_umd.Memory.{Memory}
use rtss_mailbox_umd.Api.Handle.{Uapi, Handle, SysRet}
use rtss_mailbox_umd.Api.Open.{OpenEnv, Opened, open_mailbox}
use rtss_mailbox_umd.Api.Control.{close}
use rtss_mailbox_umd.Update.Crc.{e_ok}
use rtss_mailbox_umd.Update.Handshake.{
  LibHandle, Ping, Next, goto, returns, blocks, Around, mode_sp_scall, is_ready,
}
use rtss_mailbox_umd.Update.Ota.{
  OtaContext, OtaMmapData, Device, get_ota_buffer, release_ota_buffer,
}
use rtss_mailbox_umd.Updater.Command.{exit_success, exit_failure}

-- UPDATER_TX_CHANNEL, "/dev/sail/ota0", and UPDATER_RX_CHANNEL, "/dev/sail/ota1"
abbrev pub updater_tx_channel : List ℕ
updater_tx_channel =
    47 ∷ 100 ∷ 101 ∷ 118 ∷ 47 ∷ 115 ∷ 97 ∷ 105 ∷ 108 ∷ 47 ∷ 111 ∷ 116 ∷ 97 ∷ 48 ∷ []

abbrev pub updater_rx_channel : List ℕ
updater_rx_channel =
    47 ∷ 100 ∷ 101 ∷ 118 ∷ 47 ∷ 115 ∷ 97 ∷ 105 ∷ 108 ∷ 47 ∷ 111 ∷ 116 ∷ 97 ∷ 49 ∷ []

-- What the system answers to the two opens, to `calloc` and about the buffer, and the memory that
-- the two find.
pub record MemEnv : Type 0 where
  pub calloc_ok : Bool
  pub mem : Memory
  pub tx_env : OpenEnv
  pub rx_env : OpenEnv
  pub device : Device

-- rtss_updater_mmap_data as `calloc` gives it
abbrev pub fresh_mmap_data : OtaMmapData
fresh_mmap_data = record { p_ota_base_addr = 0; s_va = 0; n_sizeof_buffer = 0 }

-- The two channels, the data of the buffer, `none` for NULL, the context of the library, and the two
-- addresses that the sequences use. `closed` are the handles that have been closed again.
pub record MemCtx : Type 0 where
  pub tx : Option Handle
  pub rx : Option Handle
  pub mmap_data : Option OtaMmapData
  pub ota : OtaContext
  pub p_va : ℕ
  pub s_va : ℕ
  pub closed : List (Option Handle)

-- Before the call nothing is open.
abbrev pub no_ctx : OtaContext → MemCtx
no_ctx ota = record {
  tx = none;
  rx = none;
  mmap_data = none;
  ota = ota;
  p_va = 0;
  s_va = 0;
  closed = [];
}

-- `rtss_mb_open` returns 0 with a handle.
abbrev pub opened_ok : Opened → Bool
opened_ok o = is_zero o.code

module _ (api : Uapi) (env : MemEnv) where
  open env use {calloc_ok, mem, tx_env, rx_env, device}

  abbrev pub tx_opened : Opened
  tx_opened = open_mailbox api tx_env mem true (some updater_tx_channel)

  abbrev pub rx_opened : Opened
  rx_opened = open_mailbox api rx_env mem true (some updater_rx_channel)

  -- From the two open channels on.
  unfoldable pub attach_buffer : MemCtx → ℕ × MemCtx
  attach_buffer ctx =
      let got = get_ota_buffer device ctx.ota fresh_mmap_data in
      if not (got.ret == e_ok)
      then (
        exit_failure,
        record ctx { mmap_data = none; ota = got.ctx; closed = ctx.tx ∷ ctx.rx ∷ [] },
      )
      else (
        exit_success,
        record ctx {
          mmap_data = some got.client;
          ota = got.ctx;
          p_va = got.client.p_ota_base_addr;
          s_va = got.client.s_va;
        },
      )

  unfoldable pub mem_init : OtaContext → ℕ × MemCtx
  unfolding attach_buffer
  mem_init ota =
      let with_tx = record (no_ctx ota) { tx = tx_opened.handle } in
      let with_rx = record with_tx { rx = rx_opened.handle } in
      if not calloc_ok
      then (exit_failure, no_ctx ota)
      else if not (opened_ok tx_opened)
      then (exit_failure, no_ctx ota)
      else if not (opened_ok rx_opened)
      then (exit_failure, record with_tx { closed = with_tx.tx ∷ [] })
      else attach_buffer with_rx

-- The codes of the two closes come from what the kernel returns to them. A first close that fails
-- leaves the second channel and the buffer as they are.
unfoldable pub mem_deinit : Uapi → SysRet → SysRet → MemCtx → ℕ × MemCtx
mem_deinit api tx_sys rx_sys ctx =
    let (released, ota', data', acts) = release_ota_buffer ctx.ota ctx.mmap_data in
    if not (is_zero (close api ctx.tx tx_sys).0)
    then (exit_failure, record ctx { closed = ctx.tx ∷ [] })
    else if not (is_zero (close api ctx.rx rx_sys).0)
    then (exit_failure, record ctx { closed = ctx.tx ∷ ctx.rx ∷ [] })
    else (exit_success, record ctx { ota = ota'; mmap_data = data'; closed = ctx.tx ∷ ctx.rx ∷ [] })

-- Behind the handshake: whether it succeeded, and the memory; `none` where it waits.
abbrev pub shaken : Next → Option (Bool × LibHandle × Memory)
shaken (goto label s) = none
shaken (returns b s) = some (b, s.lib, s.mem)
shaken (blocks s) = none

abbrev pub greeted :
    MemCtx → Option (Bool × LibHandle × Memory) → Option (ℕ × MemCtx × LibHandle × Memory)
greeted ctx none = none
greeted ctx (some (b, lib, m)) = some (if b then exit_success else exit_failure, ctx, lib, m)

-- `tx_msg` and `rx_msg` are the addresses of the two messages of the handshake.
unfoldable pub mem_ctx_init :
    Uapi
    → MemEnv
    → OtaContext
    → (tx_msg rx_msg : ℕ) → LibHandle
    → (ℕ → Around)
    → Option (ℕ × MemCtx × LibHandle × Memory)
unfolding mem_init
mem_ctx_init api env ota tx_msg rx_msg lib around =
    let (code, ctx) = mem_init api env ota in
    if not (code == exit_success)
    then some (exit_failure, ctx, lib, env.mem)
    else greeted ctx
        (shaken (is_ready api mode_sp_scall ctx.tx ctx.rx tx_msg rx_msg lib env.mem around))

-- ===== src/Updater/Main.antt =====
-- `main` of apps/rtss-updater/demo/src/rtss_updater.c: the arguments, the configuration, the channels and
-- the buffer, the sequence that the arguments ask for, and the end. The results of the sequence and of
-- the end are not looked at.
pub mod Status
pub mod Tests
use rtss_mailbox_umd.Base.{
  ℕ, Bool, true, false, not, ◌&&◌, ◌==◌, if◌then◌else◌, Option, none, some, List, [], ◌∷◌,
}
use rtss_mailbox_umd.Memory.{Memory}
use rtss_mailbox_umd.Api.Handle.{SysRet}
use rtss_mailbox_umd.Update.Handshake.{LibHandle, Around}
use rtss_mailbox_umd.Update.Ota.{OtaContext}
use rtss_mailbox_umd.Updater.Command.{exit_success, exit_failure}
use rtss_mailbox_umd.Updater.Config.{
  Entry, cfgfile_read, supported_img_names, max_images, get_img_parse_info,
}
use rtss_mailbox_umd.Updater.Response.{rtss_updater_hndshk}
use rtss_mailbox_umd.Updater.Session.{Setup, State, Result, Proc, ok, pure}
use rtss_mailbox_umd.Updater.Sequence.{
  names_of, banks_of, chosen_images, preboot_demosequence, postboot_demosequence, devprog_flasher,
}
use rtss_mailbox_umd.Updater.GptUpdate.{GptFile, image_update_gpt}
use rtss_mailbox_umd.Updater.Options.{Args, updater_error}
use rtss_mailbox_umd.Updater.Context.{MemEnv, MemCtx, mem_ctx_init, mem_deinit}

abbrev pub is_given : List ℕ → Bool
is_given [] = false
is_given (x ∷ xs) = true

-- Whether the configuration file is left alone.
unfoldable pub skips_config : Args → Bool
skips_config a =
    if a.restart == 2 && a.skip_config_file == 1
    then true
    else is_given a.gpt_update && a.restart == updater_error

-- `opened` is what `fopen` and `getline` give for a name.
unfoldable pub read_config : (List ℕ → Option (List (List ℕ))) → Args → Option (List Entry)
unfolding skips_config
read_config opened a =
    if skips_config a
    then some []
    else cfgfile_read supported_img_names max_images (opened a.ota_cfg_path)

-- What surrounds the process beside the files of a `Setup`: the system, the file of the table, the
-- configuration files, the state of the library, the handshake and the two closes at the end.
pub record World : Type 0 where
  pub mem_env : MemEnv
  pub gpt_file : GptFile
  pub opened : List ℕ → Option (List (List ℕ))
  pub ota : OtaContext
  pub lib : LibHandle
  pub around : ℕ → Around
  pub tx_close : SysRet
  pub rx_close : SysRet

module _ (w : World) (a : Args) (images : List Entry) where
  -- The sequence that the arguments ask for.
  unfoldable pub run_flow : Setup → Proc
  run_flow c =
      if is_given a.gpt_update
      then image_update_gpt c w.gpt_file
      else if a.restart == 0
      then preboot_demosequence c images a.rstskip
      else if a.restart == 1
      then postboot_demosequence c (names_of images) a.ackstate
      else if a.restart == 2
      then devprog_flasher c (banks_of a.partition) (
          chosen_images a.skip_config_file a.img_path a.img_identifier
            (get_img_parse_info w.opened (some a.ota_cfg_path)))
      else pure tt

-- The exit status, the log of the sequence, and what is left of the channels and the buffer; `none`
-- where the process waits for ever.
pub record Exit : Type 0 where
  pub code : ℕ
  pub ctx : Option MemCtx
  pub end : Option State

abbrev fails : Exit
fails = record { code = exit_failure; ctx = none; end = none }

-- The sequence starts with the static structures as they are.
abbrev pub start : Memory → State
start m = record { mem = m; hndshk = rtss_updater_hndshk; turn = 0; log = [] }

abbrev pub with_ctx : Setup → MemCtx → Setup
with_ctx c ctx = record c { tx = ctx.tx; rx = ctx.rx; p_va = ctx.p_va; s_va = ctx.s_va }

module _ (c : Setup) (w : World) where
  -- Behind the sequence, whatever its result.
  unfoldable pub finish : MemCtx → Result (Unit {0}) × State → Option Exit
  finish ctx (Result.waits, s) = none
  finish ctx (r, s) = some (record {
    code = exit_success;
    ctx = some (mem_deinit c.api w.tx_close w.rx_close ctx).1;
    end = some s;
  })

  unfoldable pub run_with :
      Args → List Entry → Option (ℕ × MemCtx × LibHandle × Memory) → Option Exit
  unfolding run_flow finish
  run_with a images none = none
  run_with a images (some (code, ctx, lib, m)) =
      if not (code == exit_success)
      then some (record fails { ctx = some ctx })
      else finish ctx (run_flow w a images (with_ctx c ctx) (start m))

  unfoldable pub configured : Args → Option (List Entry) → Option Exit
  unfolding run_with
  configured a none = some fails
  configured a (some images) =
      run_with a images (mem_ctx_init c.api w.mem_env w.ota c.tx_msg c.rx_msg w.lib w.around)

  -- From what the command line gives.
  unfoldable pub main : Option Args → Option Exit
  unfolding configured read_config
  main none = some fails
  main (some a) = configured a (read_config w.opened a)

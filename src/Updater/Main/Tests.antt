-- ===== src/Updater/Main/Tests.antt =====
-- Runs of the theorems on the arguments, the channels and the whole program.
use rtss_mailbox_umd.Base.{ℕ, ◌-◌, ◌≡◌, ◌⊎◌, refl, true, false, none, some, List, [], ◌∷◌}
use rtss_mailbox_umd.Base.Int.{ℤ, pos}
use rtss_mailbox_umd.Api.Handle.{SysRet}
use rtss_mailbox_umd.Api.Open.{OpenEnv}
use rtss_mailbox_umd.Update.Handshake.{rtss_upd_lib_handle}
use rtss_mailbox_umd.Update.Ota.{rtss_ota_ctx, get_ota_buffer}
use rtss_mailbox_umd.Updater.Session.Tests.{demo_setup}
use rtss_mailbox_umd.Updater.Tests.{demo_api, with_messages}
use rtss_mailbox_umd.Updater.Options.{
  Args, Opt, rtss_updater_args, getopt_parser, parse_opts, parse_opt, with_restart, with_partition,
}
use rtss_mailbox_umd.Updater.Options.Valid.{IsValid, getopt_parser-IsValid}
use rtss_mailbox_umd.Updater.Context.{
  MemEnv, fresh_mmap_data, tx_opened, rx_opened, mem_init, mem_ctx_init,
}
use rtss_mailbox_umd.Updater.Context.Balanced.{handles, mem_init_balanced}
use rtss_mailbox_umd.Updater.Main.{World, read_config, skips_config, main}
use rtss_mailbox_umd.Updater.Main.Status.{flow_plan, EndsAfter, main_in_order}

-- a number of one digit
abbrev digit : List ℕ → ℤ
digit [] = pos 0
digit (c ∷ cs) = pos (c - 48)

-- -r 2 -p 1
abbrev two_options : List Opt
two_options =
    (record { uch = 114; optarg = some (50 ∷ []) })
    ∷ (record { uch = 112; optarg = some (49 ∷ []) })
    ∷ []

getopt_parser-IsValid_example : IsValid (record rtss_updater_args { restart = 2; partition = 1 })
unfolding getopt_parser parse_opts parse_opt with_restart with_partition
getopt_parser-IsValid_example = getopt_parser-IsValid digit false two_options _ refl

abbrev granted : SysRet
granted = record { ret = pos 3; errno = 0 }

-- The device is there, but the mapping of the mailbox fails.
abbrev no_mapping : OpenEnv
no_mapping = record {
  calloc_ok = true;
  dev_open = granted;
  region = record { ret = pos 0; errno = 0 };
  region_size = 4096;
  mmap_addr = none;
  mmap_errno = 12;
  event_open = granted;
  event_set = record { ret = pos 0; errno = 0 };
  desc = 8000;
}

abbrev demo_env : MemEnv
demo_env = record {
  calloc_ok = true;
  mem = with_messages;
  tx_env = record no_mapping { mmap_addr = some 1000 };
  rx_env = no_mapping;
  device = record {
    opened_fd = some 4;
    region_fails = false;
    region_addr = 0x9000;
    region_size = 65536;
    map_addr = some 20000;
  };
}

mem_init_balanced_example :
    let (code, ctx) = mem_init demo_api demo_env rtss_ota_ctx in
    (code ≡ 0)
      × (ctx.closed ≡ [])
      × (ctx.tx ≡ (tx_opened demo_api demo_env).handle)
      × (ctx.rx ≡ (rx_opened demo_api demo_env).handle)
      × (ctx.mmap_data ≡ some (get_ota_buffer demo_env.device rtss_ota_ctx fresh_mmap_data).client)
      × (ctx.ota ≡ (get_ota_buffer demo_env.device rtss_ota_ctx fresh_mmap_data).ctx)
    ⊎ (code ≡ 1)
      × (ctx.closed ≡ handles demo_api demo_env rtss_ota_ctx)
      × (ctx.mmap_data ≡ none)
      × (ctx.ota ≡ rtss_ota_ctx)
mem_init_balanced_example = mem_init_balanced demo_api demo_env rtss_ota_ctx

-- A table is to be written, from a file that is not there.
abbrev demo_world : World
demo_world = record {
  mem_env = demo_env;
  gpt_file = record { found = false; opens = false; size = none; buffer = 0; shots = [] };
  opened = λ path. none;
  ota = rtss_ota_ctx;
  lib = rtss_upd_lib_handle;
  around = λ n. record { sys = granted; wakes = [] };
  tx_close = granted;
  rx_close = granted;
}

abbrev gpt_args : Args
gpt_args = record rtss_updater_args { gpt_update = 47 ∷ [] }

main_in_order_example :
    EndsAfter
      (flow_plan demo_world gpt_args [])
      (mem_ctx_init demo_setup.api demo_world.mem_env demo_world.ota demo_setup.tx_msg
        demo_setup.rx_msg demo_world.lib demo_world.around)
      (main demo_setup demo_world (some gpt_args))
unfolding read_config skips_config
main_in_order_example = main_in_order demo_setup demo_world gpt_args [] refl

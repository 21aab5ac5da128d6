-- ===== src/Updater/Main/Status.antt =====
-- What the exit status of the updater says, and what it has done by then.
use mathlib.Core.List.{append-nil}
use mathlib.Core.Path.{subst}
use rtss_mailbox_umd.Base.{
  ℕ, ◌==◌, ◌≡◌, ◌≢◌, ◌⊎◌, refl, sym, Bool, true, false, if◌then◌else◌, Option, none, some, List, [],
  ◌++◌, Bool-cases, inl, inr, ℕ_discrete, ne→==,
}
use rtss_mailbox_umd.Memory.{Memory}
use rtss_mailbox_umd.Update.Handshake.{LibHandle}
use rtss_mailbox_umd.Updater.Command.{exit_success, exit_failure}
use rtss_mailbox_umd.Updater.Config.{Entry, get_img_parse_info}
use rtss_mailbox_umd.Updater.Session.{Setup, Event, State, Result, ok, exits, waits}
use rtss_mailbox_umd.Updater.Session.Trace.{Mark, Trace, complete}
use rtss_mailbox_umd.Updater.Session.Steps.{is_ok}
use rtss_mailbox_umd.Updater.Sequence.{names_of, banks_of, chosen_images}
use rtss_mailbox_umd.Updater.Sequence.Order.{
  prepare_plan, check_plan, preboot_plan, preboot_in_order,
}
use rtss_mailbox_umd.Updater.Sequence.PostbootOrder.{postboot_plan, postboot_in_order}
use rtss_mailbox_umd.Updater.Sequence.DevprogOrder.{chosen_plan, devprog_in_order}
use rtss_mailbox_umd.Updater.GptUpdate.Order.{gpt_plan, image_update_gpt_in_order}
use rtss_mailbox_umd.Updater.Options.{Args}
use rtss_mailbox_umd.Updater.Context.{MemCtx, mem_ctx_init}
use rtss_mailbox_umd.Updater.Main.{
  is_given, read_config, World, run_flow, Exit, start, with_ctx, finish, run_with, configured, main,
}

-- The plan of the sequence that the arguments ask for.
abbrev pub flow_plan : World → Args → List Entry → List Mark
flow_plan w a images =
    if is_given a.gpt_update
    then gpt_plan
    else if a.restart == 0
    then preboot_plan images a.rstskip
    else if a.restart == 1
    then postboot_plan (names_of images) a.ackstate
    else if a.restart == 2
    then prepare_plan
      ++ (check_plan
          ++ chosen_plan (banks_of a.partition) (
              chosen_images a.skip_config_file a.img_path a.img_identifier
                (get_img_parse_info w.opened (some a.ota_cfg_path))))
    else []

-- What a sequence has added to the log is in order with the plan.
abbrev InOrder : List Mark → State → Result (Unit {0}) × State → Type 0
InOrder plan s (r, s') =
    (t : List Event) × (s'.log ≡ s.log ++ t) × Trace s.hndshk.resp_status plan (is_ok r) t

run_flow-InOrder :
    (w : World) (a : Args) (images : List Entry) (c : Setup) (s : State)
    → InOrder (flow_plan w a images) s (run_flow w a images c s)
unfolding run_flow
run_flow-InOrder w a images c s = elim (Bool-cases (is_given a.gpt_update)) [
  | inl g ↦ rw g (image_update_gpt_in_order c w.gpt_file s)
  | inr g ↦ elim (ℕ_discrete a.restart 0) [
    | yes r ↦ rw (g, r) (preboot_in_order c images a.rstskip s)
    | no r0 ↦ elim (ℕ_discrete a.restart 1) [
      | yes r ↦ rw (g, r) (postboot_in_order c (names_of images) a.ackstate s)
      | no r1 ↦ elim (ℕ_discrete a.restart 2) [
        | yes r ↦
            rw (g, r)
              (devprog_in_order c (banks_of a.partition)
                (chosen_images a.skip_config_file a.img_path a.img_identifier
                  (get_img_parse_info w.opened (some a.ota_cfg_path)))
                s)
        | no r2 ↦
            rw (g, ne→== _ _ r0, ne→== _ _ r1, ne→== _ _ r2) ([], sym (append-nil s.log), complete)
      ]
    ]
  ]
]

-- How `main` ends, by what the setting up of the channels and the buffer gave: with EXIT_FAILURE and no
-- run where that failed; else with EXIT_SUCCESS and a log in order with the plan, whole or not.
abbrev pub SetUp : Type 0
SetUp = Option (ℕ × MemCtx × LibHandle × Memory)

abbrev pub Ends : List Mark → ℕ → Exit → Type 0
Ends plan code e =
    ((code ≢ exit_success) × (e.code ≡ exit_failure) × (e.end ≡ none))
    ⊎ ((code ≡ exit_success)
        × (e.code ≡ exit_success)
        × (s : State) × (e.end ≡ some s)
        × (b : Bool) × Trace 0 plan b s.log)

-- `main` waits for ever if the setting up does, and may do so in a sequence.
abbrev pub EndsAfter : List Mark → SetUp → Option Exit → Type 0
EndsAfter plan none e = e ≡ none
EndsAfter plan (some (code, ctx, lib, m)) none = code ≡ exit_success
EndsAfter plan (some (code, ctx, lib, m)) (some e) = Ends plan code e

module _ (c : Setup) (w : World) (a : Args) (images : List Entry) where
  abbrev plan : List Mark
  plan = flow_plan w a images

  finish-EndsAfter :
      (ctx : MemCtx) (lib : LibHandle) (m : Memory) (r : Result (Unit {0})) (s : State)
      → InOrder plan (start m) (r, s)
      → EndsAfter plan (some (exit_success, ctx, lib, m)) (finish c w ctx (r, s))
  unfolding finish
  finish-EndsAfter ctx lib m waits s h = refl
  finish-EndsAfter ctx lib m (ok x) s (t, e, done) =
      inr (refl, refl, s, refl, true, subst (Trace 0 plan true) (sym e) done)
  finish-EndsAfter ctx lib m exits s (t, e, done) =
      inr (refl, refl, s, refl, false, subst (Trace 0 plan false) (sym e) done)

  run_with-EndsAfter : (o : SetUp) → EndsAfter plan o (run_with c w a images o)
  unfolding run_with
  run_with-EndsAfter none = refl
  run_with-EndsAfter (some (code, ctx, lib, m)) = elim (ℕ_discrete code 0) [
    | yes good ↦ rw good (
        finish-EndsAfter ctx lib m (run_flow w a images (with_ctx c ctx) (start m)).0
          (run_flow w a images (with_ctx c ctx) (start m)).1
          (run_flow-InOrder w a images (with_ctx c ctx) (start m)))
    | no bad ↦ rw (ne→== _ _ bad) (inl (bad, refl, refl))
  ]

  -- For arguments whose configuration is read: where the setting up of the channels and the buffer
  -- fails, `main` ends with EXIT_FAILURE and runs nothing. Where it succeeds, `main` ends, if it does,
  -- with EXIT_SUCCESS, whatever the sequence gave: the log is in order with the plan of the sequence
  -- that the arguments ask for, but need not be all of it, and is empty where they ask for none.
  pub main_in_order :
      read_config w.opened a ≡ some images
      → EndsAfter
          (flow_plan w a images)
          (mem_ctx_init c.api w.mem_env w.ota c.tx_msg c.rx_msg w.lib w.around)
          (main c w (some a))
  unfolding main configured
  main_in_order config =
      rw config
        (run_with-EndsAfter (mem_ctx_init c.api w.mem_env w.ota c.tx_msg c.rx_msg w.lib w.around))

-- ===== src/Updater/Options.antt =====
-- The command line of apps/rtss-updater/demo/src/rtss_updater.c, `rtss_updater_getopt_parser`. What
-- `getopt_long` returns, one after the other, is the list of the options; `atoi` is a parameter. A
-- path is the list of its characters, without NUL. The path of `-j` is only looked at for whether
-- it is refused, since all that it serves are the timers.
pub mod Valid
use rtss_mailbox_umd.Base.{
  ℕ, Bool, ltb, ◌==◌, if◌then◌else◌, Option, none, some, List, [], ◌∷◌, take, length,
}
use rtss_mailbox_umd.Base.Int.{ℤ, uint32}
use rtss_mailbox_umd.Updater.Command.{exit_failure}

-- rtss_updater_argopt_t
pub record Args : Type 0 where
  pub restart : ℕ
  pub partition : ℕ
  pub ota_cfg_path : List ℕ
  pub gpt_update : List ℕ
  pub img_path : List ℕ
  pub img_identifier : List ℕ
  pub skip_config_file : ℕ
  pub ackstate : ℕ
  pub rstskip : ℕ

-- RTSS_UPDATER_ERROR
abbrev pub updater_error : ℕ
updater_error = 101

-- As the parser starts.
abbrev pub rtss_updater_args : Args
rtss_updater_args = record {
  restart = updater_error;
  partition = updater_error;
  ota_cfg_path = [];
  gpt_update = [];
  img_path = [];
  img_identifier = [];
  skip_config_file = 0;
  ackstate = 0;
  rstskip = 0;
}

-- A return of `getopt_long`: the character, and `optarg`, `none` for NULL.
pub record Opt : Type 0 where
  pub uch : ℕ
  pub optarg : Option (List ℕ)

-- The path as it is copied into a member with room for `room` characters. The copy returns its
-- length, which is compared with EXIT_FAILURE.
unfoldable pub copied : ℕ → Option (List ℕ) → Option (List ℕ)
copied room none = none
copied room (some path) =
    let path' = take room path in if length path' == exit_failure then none else some path'

abbrev with_cfg : Args → Option (List ℕ) → Option Args
with_cfg a none = none
with_cfg a (some path) = some (record a { ota_cfg_path = path })

abbrev with_gpt : Args → Option (List ℕ) → Option Args
with_gpt a none = none
with_gpt a (some path) = some (record a { gpt_update = path })

abbrev with_image : Args → Option (List ℕ) → Option Args
with_image a none = none
with_image a (some path) = some (record a { skip_config_file = 1; img_path = path })

abbrev with_identifier : Args → Option (List ℕ) → Option Args
with_identifier a none = none
with_identifier a (some path) = some (record a { img_identifier = path })

abbrev unchanged : Args → Option (List ℕ) → Option Args
unchanged a none = none
unchanged a (some path) = some a

abbrev parse_next : (Args → Option Args) → Option Args → Option Args
parse_next next none = none
parse_next next (some a) = next a

module _ (atoi : List ℕ → ℤ) where
  unfoldable pub with_restart : Args → Option (List ℕ) → Option Args
  with_restart a none = none
  with_restart a (some arg) =
      let value = uint32 (atoi arg) in
      if ltb 2 value then none else some (record a { restart = value })

  unfoldable pub with_partition : Args → Option (List ℕ) → Option Args
  with_partition a none = none
  with_partition a (some arg) =
      let value = uint32 (atoi arg) in
      if ltb 1 value then none else some (record a { partition = value })

  -- One round of the loop: r, p, c, g, f, i, a, d, j and 0; h and all others end it with a failure.
  unfoldable pub parse_opt : Args → ℕ → Option (List ℕ) → Option Args
  unfolding copied with_restart with_partition
  parse_opt a uch optarg =
      if uch == 114
      then with_restart a optarg
      else if uch == 112
      then with_partition a optarg
      else if uch == 99
      then with_cfg a (copied 127 optarg)
      else if uch == 103
      then with_gpt a (copied 127 optarg)
      else if uch == 102
      then with_image a (copied 128 optarg)
      else if uch == 105
      then with_identifier a (copied 128 optarg)
      else if uch == 97
      then some (record a { ackstate = 1 })
      else if uch == 100
      then some (record a { rstskip = 1 })
      else if uch == 106
      then unchanged a (copied 128 optarg)
      else if uch == 0
      then some a
      else none

  unfoldable pub parse_opts : List Opt → Args → Option Args
  unfolding parse_opt
  parse_opts [] a = some a
  parse_opts (o ∷ os) a = parse_next (parse_opts os) (parse_opt a o.uch o.optarg)

  -- `alone` is argc == 1.
  unfoldable pub getopt_parser : (alone : Bool) → List Opt → Option Args
  unfolding parse_opts
  getopt_parser alone opts = if alone then none else parse_opts opts rtss_updater_args

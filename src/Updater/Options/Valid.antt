-- ===== src/Updater/Options/Valid.antt =====
-- The numbers that the command line can set.
use mathlib.Core.Path.{subst}
use rtss_mailbox_umd.Base.{
  ℕ, ◌==◌, if◌then◌else◌, dec_lt, lt→ltb, le→ltb, ◌≤◌, ◌≡◌, ◌⊎◌, inl, inr, refl, arith, Bool, true,
  false, Option, none, some, List, [], ◌∷◌,
}
use rtss_mailbox_umd.Base.Int.{ℤ, uint32}
use rtss_mailbox_umd.Updater.Options.{
  Args, updater_error, rtss_updater_args, Opt, with_cfg, with_gpt, with_image, with_identifier,
  unchanged, with_restart, with_partition, parse_opt, parse_next, parse_opts, getopt_parser,
}

-- One of the three flows or none, and one of the two partitions or none.
pub record IsValid (a : Args) : Type 0 where
  pub restart_ok : (a.restart ≤ 2) ⊎ (a.restart ≡ updater_error)
  pub partition_ok : (a.partition ≤ 1) ⊎ (a.partition ≡ updater_error)

abbrev AreValid : Option Args → Type 0
AreValid none = Unit {0}
AreValid (some a) = IsValid a

branch-AreValid :
    (c : Bool) (x y : Option Args) → AreValid x → AreValid y → AreValid (if c then x else y)
branch-AreValid true x y p q = p
branch-AreValid false x y p q = q

with_cfg-AreValid : (a : Args) (o : Option (List ℕ)) → IsValid a → AreValid (with_cfg a o)
with_cfg-AreValid a none v = tt
with_cfg-AreValid a (some path) v = record {
  restart_ok = v.restart_ok;
  partition_ok = v.partition_ok;
}

with_gpt-AreValid : (a : Args) (o : Option (List ℕ)) → IsValid a → AreValid (with_gpt a o)
with_gpt-AreValid a none v = tt
with_gpt-AreValid a (some path) v = record {
  restart_ok = v.restart_ok;
  partition_ok = v.partition_ok;
}

with_image-AreValid : (a : Args) (o : Option (List ℕ)) → IsValid a → AreValid (with_image a o)
with_image-AreValid a none v = tt
with_image-AreValid a (some path) v = record {
  restart_ok = v.restart_ok;
  partition_ok = v.partition_ok;
}

with_identifier-AreValid :
    (a : Args) (o : Option (List ℕ)) → IsValid a → AreValid (with_identifier a o)
with_identifier-AreValid a none v = tt
with_identifier-AreValid a (some path) v = record {
  restart_ok = v.restart_ok;
  partition_ok = v.partition_ok;
}

unchanged-AreValid : (a : Args) (o : Option (List ℕ)) → IsValid a → AreValid (unchanged a o)
unchanged-AreValid a none v = tt
unchanged-AreValid a (some path) v = v

module _ (atoi : List ℕ → ℤ) where
  with_restart-AreValid :
      (a : Args) (o : Option (List ℕ)) → IsValid a → AreValid (with_restart atoi a o)
  unfolding with_restart
  with_restart-AreValid a none v = tt
  with_restart-AreValid a (some arg) v = elim (dec_lt 2 (uint32 (atoi arg))) [
    | yes big ↦ rw (lt→ltb 2 (uint32 (atoi arg)) big) tt
    | no small ↦
        rw (le→ltb (uint32 (atoi arg)) 2 (omega arith))
          (record { restart_ok = inl (omega arith); partition_ok = v.partition_ok })
  ]

  with_partition-AreValid :
      (a : Args) (o : Option (List ℕ)) → IsValid a → AreValid (with_partition atoi a o)
  unfolding with_partition
  with_partition-AreValid a none v = tt
  with_partition-AreValid a (some arg) v = elim (dec_lt 1 (uint32 (atoi arg))) [
    | yes big ↦ rw (lt→ltb 1 (uint32 (atoi arg)) big) tt
    | no small ↦
        rw (le→ltb (uint32 (atoi arg)) 1 (omega arith))
          (record { restart_ok = v.restart_ok; partition_ok = inl (omega arith) })
  ]

  parse_opt-AreValid :
      (a : Args) (uch : ℕ) (o : Option (List ℕ)) → IsValid a → AreValid (parse_opt atoi a uch o)
  unfolding parse_opt
  parse_opt-AreValid a uch o v = branch-AreValid (uch == 114) _ _ (with_restart-AreValid a o v) (
      branch-AreValid (uch == 112) _ _ (with_partition-AreValid a o v) (
        branch-AreValid (uch == 99) _ _ (with_cfg-AreValid a _ v) (
          branch-AreValid (uch == 103) _ _ (with_gpt-AreValid a _ v) (
            branch-AreValid (uch == 102) _ _ (with_image-AreValid a _ v) (
              branch-AreValid (uch == 105) _ _ (with_identifier-AreValid a _ v) (
                branch-AreValid (uch == 97) _ _ same (
                  branch-AreValid (uch == 100) _ _ same (
                    branch-AreValid (uch == 106) _ _ (unchanged-AreValid a _ v)
                      (branch-AreValid (uch == 0) _ _ v tt)))))))))
    where
      same : {x y : ℕ} → IsValid (record a { ackstate = x; rstskip = y })
      same = record { restart_ok = v.restart_ok; partition_ok = v.partition_ok }

  next-AreValid :
      (next : Args → Option Args) (o : Option Args)
      → ((a : Args) → IsValid a → AreValid (next a))
      → AreValid o
      → AreValid (parse_next next o)
  next-AreValid next none h v = tt
  next-AreValid next (some a) h v = h a v

  parse_opts-AreValid : (os : List Opt) (a : Args) → IsValid a → AreValid (parse_opts atoi os a)
  unfolding parse_opts
  parse_opts-AreValid [] a v = v
  parse_opts-AreValid (o ∷ os) a v =
      next-AreValid (parse_opts atoi os) (parse_opt atoi a o.uch o.optarg) (parse_opts-AreValid os)
        (parse_opt-AreValid a o.uch o.optarg v)

  parser-AreValid : (alone : Bool) (opts : List Opt) → AreValid (getopt_parser atoi alone opts)
  unfolding getopt_parser
  parser-AreValid true opts = tt
  parser-AreValid false opts =
      parse_opts-AreValid opts rtss_updater_args
        (record { restart_ok = inr refl; partition_ok = inr refl })

  -- Whatever `atoi` gives, the arguments that `rtss_updater_getopt_parser` accepts name one of the three
  -- flows or none, and one of the two partitions or none.
  pub getopt_parser-IsValid :
      (alone : Bool) (opts : List Opt) (a : Args)
      → getopt_parser atoi alone opts ≡ some a
      → IsValid a
  getopt_parser-IsValid alone opts a e = subst AreValid e (parser-AreValid alone opts)

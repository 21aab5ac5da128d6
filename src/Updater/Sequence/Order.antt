-- ===== src/Updater/Sequence/Order.antt =====
-- The plan of the sequence before the reboot, and that a run keeps to it.
use rtss_mailbox_umd.Base.{
  ℕ, ◌==◌, if◌then◌else◌, Bool-cases, inl, inr, ◌≡◌, refl, List, [], ◌∷◌, ◌++◌,
}
use rtss_mailbox_umd.Memory.{Memory}
use rtss_mailbox_umd.Updater.Config.{Entry}
use rtss_mailbox_umd.Updater.Request.{id_of}
use rtss_mailbox_umd.Updater.Session.{Event, Setup, State, pure, gets, calls}
use rtss_mailbox_umd.Updater.Session.Trace.{
  Mark, brief, asks, judges, restarts, plain, table, flashes, Trace,
}
use rtss_mailbox_umd.Updater.Session.Steps.{
  is_ok, Follows, asking, quietly, then_follows, silent, load-Follows, clear_buffer-Follows,
  reboot-Follows, judge-Follows, ask-Follows,
}
use rtss_mailbox_umd.Updater.Sequence.{
  names_of, check_boot, prepare, flash, flash_all, reboot_unless, preboot_demosequence,
}

abbrev pub prepare_plan : List Mark
prepare_plan = asks (plain 1) ∷ asks (plain 19) ∷ asks (plain 12) ∷ []

abbrev pub check_plan : List Mark
check_plan = asks (plain 11) ∷ judges ∷ []

abbrev pub flash_plan : (partition flashtype : ℕ) → List Entry → List Mark
flash_plan partition flashtype [] = []
flash_plan partition flashtype (e ∷ es) =
    asks (flashes e.name 0 partition flashtype) ∷ flash_plan partition flashtype es

-- The checks, the good boot report, each image to partition B, the table, and the reboot.
abbrev pub preboot_plan : List Entry → ℕ → List Mark
preboot_plan images rstskip =
    prepare_plan
    ++ (check_plan
        ++ (flash_plan 1 2 images
            ++ (asks (table 5 0) ∷ (if rstskip == 0 then restarts ∷ [] else []))))

pub calls-Follows : (f : Memory → ℕ × Memory) → Follows [] (calls f)
calls-Follows f = silent (calls f) (λ s. (refl, refl))

pub gets-Follows : {A : Type 0} (f : State → A) → Follows [] (gets f)
gets-Follows f = silent (gets f) (λ s. (refl, refl))

pub pure-Follows : {A : Type 0} (a : A) → Follows [] (pure a)
pure-Follows a = silent (pure a) (λ s. (refl, refl))

module _ (c : Setup) where
  pub prepare-Follows : Follows prepare_plan (prepare c)
  unfolding prepare brief id_of
  prepare-Follows = asking c _ (λ a1. asking c _ (λ a2.
      quietly (gets-Follows _)
        (λ len. quietly (clear_buffer-Follows c len) (λ a3. ask-Follows c _))))

  pub check_boot-Follows : (names : List (List ℕ)) → Follows check_plan (check_boot c names)
  unfolding check_boot brief id_of
  check_boot-Follows names = quietly (calls-Follows _) (λ a1.
      asking c _
        (λ a2. quietly (gets-Follows _) (λ num. quietly (calls-Follows _) (λ a3. judge-Follows c))))

  flash-Follows :
      (partition flashtype : ℕ) (name path : List ℕ)
      → Follows
          (asks (flashes name 0 partition flashtype) ∷ [])
          (flash c partition flashtype name path)
  unfolding flash brief
  flash-Follows partition flashtype name path =
      quietly (load-Follows c path) (λ len. ask-Follows c _)

  pub flash_all-Follows :
      (partition flashtype : ℕ) (images : List Entry)
      → Follows (flash_plan partition flashtype images) (flash_all c partition flashtype images)
  unfolding flash_all
  flash_all-Follows partition flashtype [] = pure-Follows tt
  flash_all-Follows partition flashtype (e ∷ es) =
      then_follows (flash-Follows partition flashtype e.name e.path)
        (λ a. flash_all-Follows partition flashtype es)

  reboot_unless-Follows :
      (rstskip : ℕ) → Follows (if rstskip == 0 then restarts ∷ [] else []) (reboot_unless c rstskip)
  unfolding reboot_unless
  reboot_unless-Follows rstskip = elim (Bool-cases (rstskip == 0)) [
    | inl e ↦ rw e (reboot-Follows c)
    | inr e ↦ rw e (pure-Follows tt)
  ]

  preboot-Follows :
      (images : List Entry) (rstskip : ℕ)
      → Follows (preboot_plan images rstskip) (preboot_demosequence c images rstskip)
  unfolding preboot_demosequence brief
  preboot-Follows images rstskip = then_follows prepare-Follows (λ a1.
      then_follows (check_boot-Follows (names_of images)) (λ a2.
        then_follows (flash_all-Follows 1 2 images) (λ a3.
          quietly (calls-Follows _) (λ a4. asking c _ (λ a5. reboot_unless-Follows rstskip)))))

  -- Whatever the kernel, the RTSS and the files answer, the sequence before the reboot adds to the log
  -- what is in order with its plan: the checks, a good boot report, then each image in turn to
  -- partition B, the table, and the reboot, each only after the handler has returned for the command before it
  -- with status 0: that of the message read, also where its checksum is wrong, or, where nothing could
  -- be read, of the response before, as the log tells. Where it ends with success, the whole plan is done.
  pub preboot_in_order :
      (images : List Entry) (rstskip : ℕ) (s : State)
      → let (r, s') = preboot_demosequence c images rstskip s in
        (t : List Event) × (s'.log ≡ s.log ++ t)
        × Trace s.hndshk.resp_status (preboot_plan images rstskip) (is_ok r) t
  preboot_in_order images rstskip s =
      let (t, e, k, done) = (preboot-Follows images rstskip).keeps s in (t, e, done)

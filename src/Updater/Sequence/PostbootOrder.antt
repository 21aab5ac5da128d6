-- ===== src/Updater/Sequence/PostbootOrder.antt =====
-- The plan of the sequence after the reboot, and that a run keeps to it.
use rtss_mailbox_umd.Base.{
  ℕ, ◌+◌, ◌==◌, if◌then◌else◌, Bool-cases, inl, inr, ◌≡◌, List, [], ◌∷◌, ◌++◌,
}
use rtss_mailbox_umd.Updater.Request.{id_of}
use rtss_mailbox_umd.Updater.Session.{Event, Setup, State}
use rtss_mailbox_umd.Updater.Session.Trace.{Mark, brief, asks, plain, table, reads, flashes, Trace}
use rtss_mailbox_umd.Updater.Session.Steps.{
  is_ok, Follows, asking, quietly, then_follows, ask-Follows,
}
use rtss_mailbox_umd.Updater.Sequence.{copy_image, copy_all, settle, restore, postboot_demosequence}
use rtss_mailbox_umd.Updater.Sequence.Order.{
  gets-Follows, pure-Follows, check_plan, check_boot-Follows,
}

-- Each image from partition A to partition B of the primary table.
abbrev pub copy_plan : List (List ℕ) → List Mark
copy_plan [] = []
copy_plan (name ∷ names) = asks (reads name 0 0) ∷ asks (flashes name 0 1 1) ∷ copy_plan names

abbrev pub settle_plan : List Mark
settle_plan =
    asks (table 4 0) ∷ asks (plain 21) ∷ asks (plain 19) ∷ asks (plain 13) ∷ asks (plain 14) ∷ []

-- The end of the update; unless that is all, a good boot report, the tables, the images, and what
-- makes the two copies alike.
abbrev pub postboot_plan : List (List ℕ) → ℕ → List Mark
postboot_plan names ackstate =
    asks (plain 20)
    ∷ (if ackstate == 1
        then []
        else check_plan ++ (asks (plain 1) ∷ (copy_plan names ++ settle_plan)))

module _ (c : Setup) where
  copy_image-Follows :
      (k : ℕ) (name : List ℕ)
      → Follows (asks (reads name 0 0) ∷ asks (flashes name 0 1 1) ∷ []) (copy_image c k name)
  unfolding copy_image brief
  copy_image-Follows k name =
      quietly (gets-Follows _)
        (λ len. asking c _ (λ a1. quietly (gets-Follows _) (λ h. ask-Follows c _)))

  copy_all-Follows :
      (k : ℕ) (names : List (List ℕ)) → Follows (copy_plan names) (copy_all c k names)
  unfolding copy_all
  copy_all-Follows k [] = pure-Follows tt
  copy_all-Follows k (name ∷ names) =
      then_follows (copy_image-Follows k name) (λ a. copy_all-Follows (k + 1) names)

  settle-Follows : Follows settle_plan (settle c)
  unfolding settle brief id_of
  settle-Follows = quietly (gets-Follows _) (λ size. asking c _ (λ a1. asking c _ (λ a2.
      asking c _ (λ a3. quietly (gets-Follows _) (λ len. asking c _ (λ a4. ask-Follows c _))))))

  restore-Follows :
      (names : List (List ℕ))
      → Follows
          (check_plan ++ (asks (plain 1) ∷ (copy_plan names ++ settle_plan)))
          (restore c names)
  unfolding restore brief id_of
  restore-Follows names =
      then_follows (check_boot-Follows c names)
        (λ a1. asking c _ (λ a2. then_follows (copy_all-Follows 0 names) (λ a3. settle-Follows)))

  postboot-Follows :
      (names : List (List ℕ)) (ackstate : ℕ)
      → Follows (postboot_plan names ackstate) (postboot_demosequence c names ackstate)
  unfolding postboot_demosequence brief id_of
  postboot-Follows names ackstate = asking c _ (λ a. elim (Bool-cases (ackstate == 1)) [
    | inl e ↦ rw e (pure-Follows tt)
    | inr e ↦ rw e (restore-Follows names)
  ])

  -- Whatever the kernel and the RTSS answer, the sequence after the reboot adds to the log what is in
  -- order with its plan: the end of the update and, unless only that is asked for, a good boot
  -- report, the tables, each image in turn read from partition A and flashed to partition B, the
  -- other table, the redundancy and the metadata, each only after the handler has returned for the command before it
  -- with status 0: that of the message read, also where its checksum is wrong, or, where nothing could
  -- be read, of the response before, as the log tells. Where it ends with success, the whole plan is done.
  pub postboot_in_order :
      (names : List (List ℕ)) (ackstate : ℕ) (s : State)
      → let (r, s') = postboot_demosequence c names ackstate s in
        (t : List Event) × (s'.log ≡ s.log ++ t)
        × Trace s.hndshk.resp_status (postboot_plan names ackstate) (is_ok r) t
  postboot_in_order names ackstate s =
      let (t, e, k, done) = (postboot-Follows names ackstate).keeps s in (t, e, done)

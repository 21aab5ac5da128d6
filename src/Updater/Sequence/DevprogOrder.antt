-- ===== src/Updater/Sequence/DevprogOrder.antt =====
-- The plan of the flasher, and that a run keeps to it.
use rtss_mailbox_umd.Base.{ℕ, ◌≡◌, Option, none, some, List, [], ◌∷◌, ◌++◌, refl, true}
use rtss_mailbox_umd.Updater.Config.{Entry, get_img_info_default}
use rtss_mailbox_umd.Updater.Session.{Event, Setup, State, exit_when}
use rtss_mailbox_umd.Updater.Session.Trace.{Mark, Trace}
use rtss_mailbox_umd.Updater.Session.Steps.{is_ok, Follows, silent, then_follows}
use rtss_mailbox_umd.Updater.Sequence.{flash_banks, flash_chosen, devprog_flasher}
use rtss_mailbox_umd.Updater.Sequence.Order.{
  pure-Follows, prepare_plan, check_plan, flash_plan, prepare-Follows, check_boot-Follows,
  flash_all-Follows,
}

abbrev pub banks_plan : List ℕ → List Entry → List Mark
banks_plan [] images = []
banks_plan (bank ∷ banks) images = flash_plan bank 1 images ++ banks_plan banks images

-- The images to each bank, or nothing where the arguments or the file are refused.
abbrev pub chosen_plan : Option (List ℕ) → Option (List Entry) → List Mark
chosen_plan none images = []
chosen_plan (some banks) none = []
chosen_plan (some banks) (some images) = banks_plan banks images

module _ (c : Setup) where
  flash_banks-Follows :
      (banks : List ℕ) (images : List Entry)
      → Follows (banks_plan banks images) (flash_banks c banks images)
  unfolding flash_banks
  flash_banks-Follows [] images = pure-Follows tt
  flash_banks-Follows (bank ∷ banks) images =
      then_follows (flash_all-Follows c bank 1 images) (λ a. flash_banks-Follows banks images)

  flash_chosen-Follows :
      (banks : Option (List ℕ)) (images : Option (List Entry))
      → Follows (chosen_plan banks images) (flash_chosen c banks images)
  flash_chosen-Follows none images = silent (exit_when true) (λ s. (refl, refl))
  flash_chosen-Follows (some banks) none = silent (exit_when true) (λ s. (refl, refl))
  flash_chosen-Follows (some banks) (some images) = flash_banks-Follows banks images

  devprog-Follows :
      (banks : Option (List ℕ)) (images : Option (List Entry))
      → Follows
          (prepare_plan ++ (check_plan ++ chosen_plan banks images))
          (devprog_flasher c banks images)
  unfolding devprog_flasher
  devprog-Follows banks images = then_follows (prepare-Follows c) (λ a1.
      then_follows (check_boot-Follows c get_img_info_default)
        (λ a2. flash_chosen-Follows banks images))

  -- The flasher adds to the log what is in order with its plan: the checks, a good boot report, then
  -- bank by bank each image in turn, each only after the handler has returned for the command before it
  -- with status 0: that of the message read, also where its checksum is wrong, or, where nothing could
  -- be read, of the response before, as the log tells. Where it ends with success, the whole plan is done.
  pub devprog_in_order :
      (banks : Option (List ℕ)) (images : Option (List Entry)) (s : State)
      → let (r, s') = devprog_flasher c banks images s in
        (t : List Event) × (s'.log ≡ s.log ++ t)
        × Trace s.hndshk.resp_status
            (prepare_plan ++ (check_plan ++ chosen_plan banks images))
            (is_ok r)
            t
  devprog_in_order banks images s =
      let (t, e, k, done) = (devprog-Follows banks images).keeps s in (t, e, done)

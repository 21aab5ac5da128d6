-- ===== src/Updater/GptUpdate/Order.antt =====
-- The plan of the update of the partition table, and that a run keeps to it.
use rtss_mailbox_umd.Base.{ℕ, ◌≡◌, List, [], ◌∷◌, ◌++◌, refl}
use rtss_mailbox_umd.Updater.Session.{Event, Setup, State}
use rtss_mailbox_umd.Updater.Session.Trace.{Mark, brief, asks, plain, table, Trace}
use rtss_mailbox_umd.Updater.Session.Steps.{
  is_ok, Follows, silent, asking, quietly, ask-Follows, clear_buffer-Follows,
}
use rtss_mailbox_umd.Updater.Request.{id_of}
use rtss_mailbox_umd.Updater.Sequence.Order.{gets-Follows, calls-Follows}
use rtss_mailbox_umd.Updater.GptUpdate.{GptFile, new_table, write_new, image_update_gpt}

abbrev pub gpt_plan : List Mark
gpt_plan = asks (plain 1) ∷ asks (table 2 0) ∷ asks (table 3 0) ∷ asks (table 4 1) ∷ []

module _ (c : Setup) (file : GptFile) where
  new_table-Follows : Follows [] (new_table c file)
  unfolding new_table
  new_table-Follows = silent (new_table c file) (λ s. (refl, refl))

  write_new-Follows :
      (b : ℕ × ℕ) → Follows (asks (table 3 0) ∷ asks (table 4 1) ∷ []) (write_new c file b)
  unfolding write_new brief
  write_new-Follows (buf, size) =
      quietly (clear_buffer-Follows c _)
        (λ a1. asking c _ (λ a2. quietly (gets-Follows _) (λ len. ask-Follows c _)))

  image_update_gpt-Follows : Follows gpt_plan (image_update_gpt c file)
  unfolding image_update_gpt brief id_of
  image_update_gpt-Follows = asking c _ (λ a1. quietly (gets-Follows _) (λ len.
      quietly (clear_buffer-Follows c len) (λ a2. asking c _ (λ a3.
        quietly (calls-Follows _) (λ a4. quietly new_table-Follows (λ b. write_new-Follows b))))))

  -- The update of the partition table adds to the log what is in order with its plan: the tables are
  -- checked, the primary one is read, then written, and then the secondary one is put right, each only after the handler has returned for the command before it
  -- with status 0: that of the message read, also where its checksum is wrong, or, where nothing could
  -- be read, of the response before, as the log tells. Where it ends with success,
  -- the whole plan is done.
  pub image_update_gpt_in_order :
      (s : State)
      → let (r, s') = image_update_gpt c file s in
        (t : List Event) × (s'.log ≡ s.log ++ t) × Trace s.hndshk.resp_status gpt_plan (is_ok r) t
  image_update_gpt_in_order s =
      let (t, e, k, done) = image_update_gpt-Follows.keeps s in (t, e, done)

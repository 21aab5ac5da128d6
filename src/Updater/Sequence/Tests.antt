-- ===== src/Updater/Sequence/Tests.antt =====
-- Runs of the theorems on the sequences.
use rtss_mailbox_umd.Base.{◌≡◌, List, [], ◌∷◌, ◌++◌}
use rtss_mailbox_umd.Updater.Config.{Entry}
use rtss_mailbox_umd.Updater.Session.{Event}
use rtss_mailbox_umd.Updater.Session.Trace.{Trace}
use rtss_mailbox_umd.Updater.Session.Steps.{is_ok}
use rtss_mailbox_umd.Updater.Session.Tests.{demo_setup, demo_state}
use rtss_mailbox_umd.Updater.Sequence.{names_of, preboot_demosequence, postboot_demosequence}
use rtss_mailbox_umd.Updater.Sequence.Order.{preboot_plan, preboot_in_order}
use rtss_mailbox_umd.Updater.Sequence.PostbootOrder.{postboot_plan, postboot_in_order}

-- "SAIL_HYP" in "/h" and "SAIL_SW1" in "/s"
abbrev pub two_images : List Entry
two_images =
    (record { name = 83 ∷ 65 ∷ 73 ∷ 76 ∷ 95 ∷ 72 ∷ 89 ∷ 80 ∷ []; path = 47 ∷ 104 ∷ [] })
    ∷ (record { name = 83 ∷ 65 ∷ 73 ∷ 76 ∷ 95 ∷ 83 ∷ 87 ∷ 49 ∷ []; path = 47 ∷ 115 ∷ [] })
    ∷ []

preboot_in_order_example :
    let (r, s') = preboot_demosequence demo_setup two_images 0 demo_state in
    (t : List Event) × (s'.log ≡ [] ++ t) × Trace 0 (preboot_plan two_images 0) (is_ok r) t
preboot_in_order_example = preboot_in_order demo_setup two_images 0 demo_state

postboot_in_order_example :
    let (r, s') = postboot_demosequence demo_setup (names_of two_images) 0 demo_state in
    (t : List Event) × (s'.log ≡ [] ++ t)
    × Trace 0 (postboot_plan (names_of two_images) 0) (is_ok r) t
postboot_in_order_example = postboot_in_order demo_setup (names_of two_images) 0 demo_state

-- ===== src/Updater/Boot/Judge.antt =====
-- When a boot report is judged good.
use rtss_mailbox_umd.Base.{
  ℕ, zero, suc, ◌+◌, ◌^◌, ◌≤◌, ◌<◌, ◌≡◌, ◌≢◌, ◌⊎◌, ◌↔◌, refl, arith, ℕ_discrete,
}
use rtss_mailbox_umd.Updater.Command.{exit_success}
use rtss_mailbox_umd.Updater.Boot.{BootReport, passed, booted_from_b, partition_loop, judge_boot}

-- The images from `k` on, `left` of them, have been booted from partition A, or from the invalid one.
abbrev pub NoneFromB : BootReport → ℕ → ℕ → Type 0
NoneFromB r k left =
    (j : ℕ) → k ≤ j → j < k + left → (r.boot_partition j ≡ 0) ⊎ (r.boot_partition j ≡ 2)

-- Only the two counters change.
loop_keeps :
    (left k : ℕ) (r : BootReport)
    → let r' = (partition_loop left k r).1 in
      (r'.num_images_boot ≡ r.num_images_boot)
      × (r'.prim_gpt_header_crc_status ≡ r.prim_gpt_header_crc_status)
      × (r'.prim_gpt_entry_crc_status ≡ r.prim_gpt_entry_crc_status)
      × (r'.sec_gpt_header_crc_status ≡ r.sec_gpt_header_crc_status)
      × (r'.sec_gpt_entry_crc_status ≡ r.sec_gpt_entry_crc_status)
unfolding partition_loop
loop_keeps zero k r = (refl, refl, refl, refl, refl)
loop_keeps (suc left) k r =
    ground (arith, loop_keeps left (k + 1) (passed r), loop_keeps left (k + 1) (booted_from_b r))

loop_good :
    (left k : ℕ) (r : BootReport)
    → r.boot_partition_pass + left < 2 ^ 32
    → NoneFromB r k left
    → let (code, r') = partition_loop left k r in
      (code ≡ exit_success)
      × (r'.boot_partition_pass ≡ r.boot_partition_pass + left)
      × (r'.boot_partition_fail ≡ r.boot_partition_fail)
unfolding partition_loop
loop_good zero k r fits good = (refl, omega arith, refl)
loop_good (suc left) k r fits good =
    let now = good k (omega arith) (omega arith) in
    let rest =
      loop_good left (k + 1) (passed r) (omega arith)
        (λ j l u. good j (omega arith) (omega arith)) in
    ground (arith, now, rest)

-- Each image from B raises the second counter, and an unknown one ends the loop with a failure.
loop_counts :
    (left k : ℕ) (r : BootReport)
    → r.boot_partition_fail + left < 2 ^ 32
    → (partition_loop left k r).0 ≡ exit_success
    → r.boot_partition_fail ≤ (partition_loop left k r).1.boot_partition_fail
unfolding partition_loop
loop_counts zero k r fits ok = omega arith
loop_counts (suc left) k r fits ok = ground (
  arith,
  loop_counts left (k + 1) (passed r) (omega arith),
  loop_counts left (k + 1) (booted_from_b r) (omega arith),
)

loop_none :
    (left k : ℕ) (r : BootReport)
    → r.boot_partition_fail + left < 2 ^ 32
    → (partition_loop left k r).0 ≡ exit_success
    → (partition_loop left k r).1.boot_partition_fail ≡ r.boot_partition_fail
    → NoneFromB r k left
unfolding partition_loop
loop_none zero k r fits ok same j l u = absurd (omega arith)
loop_none (suc left) k r fits ok same j l u =
    let from_b = loop_counts left (k + 1) (booted_from_b r) (omega arith) in
    let here : (r.boot_partition k ≡ 0) ⊎ (r.boot_partition k ≡ 2) = ground (arith, from_b) in
    elim (ℕ_discrete j k) [
      | yes e ↦ rw e here
      | no later ↦
          loop_none left (k + 1) (passed r) (omega arith) (ground (arith, here))
            (ground (arith, here)) j (omega arith) (omega arith)
    ]

abbrev pub HasGoodTables : BootReport → Type 0
HasGoodTables r =
    (r.prim_gpt_entry_crc_status ≡ 1)
    × (r.prim_gpt_header_crc_status ≡ 1)
    × (r.sec_gpt_entry_crc_status ≡ 1)
    × (r.sec_gpt_header_crc_status ≡ 1)

-- A report with its counters at 0 is judged good exactly if all four checksums of the tables hold,
-- there is an image, and every image was booted from partition A or is reported with the invalid
-- partition 2. Which of the two tables they were booted from, bootGptId, and whether the tables agree
-- make no difference, though rtss_update_lib.h forbids an update where bootGptId is not 0.
pub judge_boot-good :
    (r : BootReport)
    → r.boot_partition_pass ≡ 0
    → r.boot_partition_fail ≡ 0
    → r.num_images_boot < 2 ^ 32
    → (judge_boot r ≡ exit_success)
      ↔ (HasGoodTables r × (r.num_images_boot ≢ 0) × NoneFromB r 0 r.num_images_boot)
unfolding judge_boot
judge_boot-good r pass0 fail0 small = (there, back)
  where
    there :
        judge_boot r ≡ exit_success
        → HasGoodTables r × (r.num_images_boot ≢ 0) × NoneFromB r 0 r.num_images_boot
    there h =
        let keeps = loop_keeps r.num_images_boot 0 r in
        let some_image : r.num_images_boot ≢ 0 = ground arith in
        let ok : (partition_loop r.num_images_boot 0 r).0 ≡ exit_success = ground arith in
        let fail' : (partition_loop r.num_images_boot 0 r).1.boot_partition_fail ≡ 0 =
          ground arith in
        (
          ground (arith, keeps),
          some_image,
          loop_none r.num_images_boot 0 r (omega arith) ok (omega arith),
        )

    back :
        HasGoodTables r × (r.num_images_boot ≢ 0) × NoneFromB r 0 r.num_images_boot
        → judge_boot r ≡ exit_success
    back (tables, some_image, none_from_b) = ground (
      arith,
      loop_keeps r.num_images_boot 0 r,
      loop_good r.num_images_boot 0 r (omega arith) none_from_b,
      tables,
      some_image,
    )

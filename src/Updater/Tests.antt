-- ===== src/Updater/Tests.antt =====
-- A channel for messages, with nothing in its queue, and runs of the theorems on it.
use rtss_mailbox_umd.Base.{
  ℕ, ◌*◌, ◌%◌, ◌≤◌, ◌<◌, ◌≡◌, ◌≢◌, ◌⊎◌, ◌↔◌, refl, true, arith, some, [], ◌∷◌,
}
use rtss_mailbox_umd.Base.Int.{pos}
use rtss_mailbox_umd.Memory.{Memory, get_reg, set_reg}
use rtss_mailbox_umd.Mailbox.Access.Open.{IsOpen}
use rtss_mailbox_umd.Api.Handle.{Uapi, Handle, fresh_handle, SysRet}
use rtss_mailbox_umd.Updater.Boot.{BootReport, judge_boot}
use rtss_mailbox_umd.Updater.Boot.Judge.{HasGoodTables, NoneFromB, judge_boot-good}
use rtss_mailbox_umd.Gpt.Partition.{le64, header_size, alternate_lba, verify_header_crc32}
use rtss_mailbox_umd.Updater.Gpt.{at, modify_header}
use rtss_mailbox_umd.Updater.Gpt.Modify.{modify_header_verified}
use rtss_mailbox_umd.Updater.Command.Transmit.{IsReady}
use rtss_mailbox_umd.Updater.Request.{flash_image, sendable, id_of, execute}
use rtss_mailbox_umd.Updater.Request.Settle.{Settled, execute_settles}

abbrev pub demo_api : Uapi
demo_api = record { mode_tx = 1; mode_rx = 0 }

abbrev pub accepted : SysRet
accepted = record { ret = pos 0; errno = 0 }

abbrev pub message_channel : Handle
message_channel = record fresh_handle {
  fd = pos 3;
  p_mb_base_addr = 1000;
  mb_size = 4096;
  mode = 1;
  subchan_item_size = 72;
}

-- four slots of 72 bytes, both indices 3
unfoldable pub with_messages : Memory
with_messages =
    set_reg
      (set_reg
        (set_reg
          (set_reg (set_reg (set_reg (set_reg (λ p. p % 251) 1016 0x4d4c_3130) 1028 1) 1032 40) 1080
            4)
          1084 72)
        1088 3)
      1092 3

with_messages-IsOpen : IsOpen with_messages 1000 0
unfolding with_messages get_reg set_reg
with_messages-IsOpen = record {
  not_null = omega arith;
  created = refl;
  index_in = omega arith;
  sane = record {
    not_null = omega arith;
    capacity_small = omega arith;
    size_small = omega arith;
    in_range = omega arith;
    out_range = omega arith;
  };
  fits = record { size_pos = omega arith; bytes_small = omega arith };
  behind = omega arith;
}

pub message_channel-IsReady : IsReady demo_api with_messages message_channel 5000
unfolding with_messages get_reg set_reg
message_channel-IsReady = record {
  can_send = record {
    fd_open = refl;
    sends = refl;
    size_same = refl;
    region_open = with_messages-IsOpen;
  };
  for_messages = refl;
  placed = omega arith;
  room = omega arith;
  clear = omega arith;
}

-- an image of 64 bytes at 9000, whose checksum the command computes
execute_settles_example :
    let q = flash_image (some (83 ∷ 65 ∷ [])) 1 2 0x8000 64 0 1 9000 in
    Settled demo_api with_messages message_channel 5000
      (sendable q)
      (id_of q)
      (execute demo_api (some message_channel) accepted 5000 q with_messages)
execute_settles_example =
    execute_settles demo_api with_messages message_channel 5000 message_channel-IsReady accepted
      refl (flash_image (some (83 ∷ 65 ∷ [])) 1 2 0x8000 64 0 1 9000)

-- two images, from partition A and from the invalid one, the second by the secondary table
abbrev good_report : BootReport
good_report = record {
  num_images_boot = 2;
  prim_gpt_header_crc_status = 1;
  prim_gpt_entry_crc_status = 1;
  sec_gpt_header_crc_status = 1;
  sec_gpt_entry_crc_status = 1;
  boot_partition_pass = 0;
  boot_partition_fail = 0;
  boot_partition = λ k. 2 * k;
  boot_gpt_id = λ k. k;
  tables_matching = λ k. 0;
}

judge_boot-good_example :
    (judge_boot good_report ≡ 0)
    ↔ (HasGoodTables good_report × (good_report.num_images_boot ≢ 0) × NoneFromB good_report 0 2)
judge_boot-good_example = judge_boot-good good_report refl refl (omega arith)

-- The report with the invalid partition is judged good.
invalid_passes : judge_boot good_report ≡ 0
unfolding judge_boot
invalid_passes = refl

-- a header of 92 bytes at 10000
unfoldable with_header : Memory
with_header = set_reg (λ p. p % 251) 10012 92

header_fits : header_size (at with_header 10000) ≤ 92
unfolding with_header set_reg
header_fits = omega arith

modify_header_verified_example :
    let m' = modify_header with_header 10000 20000 in
    (verify_header_crc32 (at m' 10000) 0 ≡ true)
    × (alternate_lba (at m' 10000) ≡ alternate_lba (at with_header 20000))
    × (le64 (at m' 10000) 48 ≡ le64 (at with_header 20000) 48)
    × ((p : ℕ)
        → (p < 10016) ⊎ (10020 ≤ p)
        → (p < 10032) ⊎ (10040 ≤ p)
        → (p < 10048) ⊎ (10056 ≤ p)
        → m' p ≡ with_header p)
modify_header_verified_example =
    modify_header_verified with_header 10000 20000 (omega arith) header_fits

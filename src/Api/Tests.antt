-- ===== src/Api/Tests.antt =====
-- An open channel on the mailbox of the access tests, and runs of the theorems on it.
use rtss_mailbox_umd.Base.{min, ℕ, ◌*◌, ◌/◌, ◌≡◌, refl, arith, true, some, [], ◌∷◌, ◌++◌, length}
use rtss_mailbox_umd.Base.Int.{pos}
use rtss_mailbox_umd.Memory.{Memory, get_reg, set_reg}
use rtss_mailbox_umd.Mailbox.Ring.Item.{items}
use rtss_mailbox_umd.Mailbox.Access.Open.{IsOpen, queue, queue_cap}
use rtss_mailbox_umd.Mailbox.Access.Tests.{demo, demo_mb, demo-IsOpen, far_buffer}
use rtss_mailbox_umd.Api.Handle.{Uapi, Handle, fresh_handle, SysRet}
use rtss_mailbox_umd.Api.Transfer.{write_batch, read_timed}
use rtss_mailbox_umd.Api.Transfer.Send.{CanSend, write_batch_sends}
use rtss_mailbox_umd.Api.Transfer.Receive.{CanReceive, read_timed_takes}
use rtss_mailbox_umd.Api.Control.{close}
use rtss_mailbox_umd.Api.Open.{OpenEnv, open_mailbox}
use rtss_mailbox_umd.Api.Open.Release.{
  replay, but_mapping, Accounts, open_mailbox-Accounts, close_keeps_mapping,
}

abbrev demo_api : Uapi
demo_api = record { mode_tx = 1; mode_rx = 0 }

abbrev demo_handle : Handle
demo_handle = record fresh_handle {
  fd = pos 3;
  p_mb_base_addr = demo_mb;
  mb_size = 4096;
  mode = 1;
  subchan_item_size = 4;
}

demo_sends : CanSend demo_api demo demo_handle
unfolding demo get_reg set_reg
demo_sends = record { fd_open = refl; sends = refl; size_same = refl; region_open = demo-IsOpen }

demo_queued : length (queue demo demo_mb 0) ≡ 2
unfolding demo get_reg set_reg
demo_queued = refl

demo_slots : queue_cap demo demo_mb 0 ≡ 4
unfolding demo get_reg set_reg
demo_slots = refl

write_batch_sends_example :
    let (r, m') = write_batch demo_api demo (some demo_handle) 5000 4 in
    (r ≡ pos (4 / 4 * 4))
    × (queue m' demo_mb 0 ≡ queue demo demo_mb 0 ++ items demo 5000 4 (4 / 4))
    × IsOpen m' demo_mb 0
write_batch_sends_example =
    write_batch_sends demo_api demo demo_handle demo_sends 5000 4 (omega arith) (omega arith)
      (omega (arith, demo_queued, demo_slots)) (omega arith) (far_buffer (4 / 4) (omega arith))

demo_receives : CanReceive demo_api demo (record demo_handle { mode = 0 })
unfolding demo get_reg set_reg
demo_receives = record {
  fd_open = refl;
  receives = refl;
  size_same = refl;
  region_open = demo-IsOpen;
}

-- a buffer for three items, where two are there
read_timed_takes_example :
    let k = min (length (queue demo demo_mb 0)) (12 / 4) in
    (m' : Memory) × (read_timed demo_api demo
        (some (record demo_handle { mode = 0 }))
        5000
        12
        (pos 100)
        []
      ≡ some (pos (k * 4), m'))
    × (queue demo demo_mb 0 ≡ items m' 5000 4 k ++ queue m' demo_mb 0)
    × IsOpen m' demo_mb 0
read_timed_takes_example =
    read_timed_takes demo_api demo (record demo_handle { mode = 0 }) demo_receives 5000 12
      (omega arith) (omega arith)
      (far_buffer (min (length (queue demo demo_mb 0)) (12 / 4)) (omega arith)) (pos 100) [] refl
      (omega arith) (omega (arith, demo_queued))

abbrev answers : ℕ → SysRet
answers n = record { ret = pos n; errno = 0 }

abbrev demo_env : OpenEnv
demo_env = record {
  calloc_ok = true;
  dev_open = answers 3;
  region = answers 0;
  region_size = 4096;
  mmap_addr = some demo_mb;
  mmap_errno = 0;
  event_open = answers 4;
  event_set = answers 0;
  desc = 7000;
}

-- the sub-region of the mailbox has no name that matches
open_mailbox-Accounts_example :
    let o = open_mailbox demo_api demo_env demo true (some (97 ∷ [])) in
    Accounts demo_api o.handle o.code o.acts
open_mailbox-Accounts_example = open_mailbox-Accounts demo_api demo_env demo true (some (97 ∷ []))

close_keeps_mapping_example :
    replay (but_mapping demo_api demo_handle) (close demo_api (some demo_handle) (answers 0)).1
    ≡ some []
close_keeps_mapping_example =
    close_keeps_mapping demo_api demo_handle (answers 0) refl (λ e. absurd (ground arith))

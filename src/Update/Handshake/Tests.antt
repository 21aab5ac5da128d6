-- ===== src/Update/Handshake/Tests.antt =====
-- A handshake over two mailboxes, at 1000 to the RTSS and at 2000 from it, and runs of the theorems.
use rtss_mailbox_umd.Base.{
  ℕ, ◌+◌, ◌%◌, ◌≡◌, ◌∙◌, ◌⊎◌, refl, arith, Bool, true, false, Option, some, List, [], ◌∷◌, ◌++◌,
}
use rtss_mailbox_umd.Base.Int.{pos}
use rtss_mailbox_umd.Memory.{Memory, loops, get_reg, set_reg, copy_run, libmbcopy_bytes}
use rtss_mailbox_umd.Api.Handle.{Uapi, Handle, fresh_handle}
use rtss_mailbox_umd.Api.Transfer.{
  Wake, read_timed, wait_items, wake_error, deliver, trigger_behind, trigger_ioctl,
}
use rtss_mailbox_umd.Api.Transfer
use rtss_mailbox_umd.Mailbox.Access
use rtss_mailbox_umd.Mailbox.Access.{get_free_item_num, get_valid_item_num}
use rtss_mailbox_umd.Mailbox.Ring.{valid_item, free_item, write_item, read_item, sanity_check}
use rtss_mailbox_umd.Update.CrcTable.{crc32_ethernet_table}
use rtss_mailbox_umd.Update.Crc.{
  calculate_crc32, crc32_generate, crc32_loop, crc32_reflect, crc8_reflect, crc32_step,
}
use rtss_mailbox_umd.Update.Message.{send_msg, crc_into, set_run, set_bytes, set_words}
use rtss_mailbox_umd.Update.Handshake.{
  rtss_upd_lib_handle, put_hello, run, step, ping_step, recovery_step, received_step, check_step,
  mismatch_step, verify_handshake, same_run, ping_tx_msg_pack, ping_rx_msg_pack, Ping, Next, goto,
  at_recovery, returns, blocks, Around, hello_ping, is_ready,
}
use rtss_mailbox_umd.Api.Handle.{send_interrupt, evfdinfo_of}
use rtss_mailbox_umd.Mailbox.Access.Open.{IsOpen, queue, BufferApart}
use rtss_mailbox_umd.Updater.Tests.{message_channel, with_messages, message_channel-IsReady}
use rtss_mailbox_umd.Update.Handshake.Hello.{IsHello, ping_sends}
use rtss_mailbox_umd.Update.Handshake.Ends.{hello_ping_ends}
use rtss_mailbox_umd.Update.Handshake.Outcome.{hello_ping_returns, is_ready_once}

abbrev demo_api : Uapi
demo_api = record { mode_tx = 1; mode_rx = 0 }

abbrev to_rtss : Handle
to_rtss = record fresh_handle {
  fd = pos 3;
  p_mb_base_addr = 1000;
  mode = 1;
  subchan_item_size = 72;
}

abbrev from_rtss : Handle
from_rtss = record fresh_handle {
  fd = pos 4;
  p_mb_base_addr = 2000;
  mode = 0;
  subchan_item_size = 72;
}

-- A mailbox with one sub-region of four slots; `r` and `w` are its indices.
abbrev mailbox_at : Memory → ℕ → ℕ → ℕ → Memory
mailbox_at m mb w r =
    set_words (set_words (set_reg m (mb + 16) 0x4d4c_3130) (mb + 28) (1 ∷ 40 ∷ [])) (mb + 80)
      (4 ∷ 72 ∷ w ∷ r ∷ [])

-- a HELLO with a direction, and without its checksum
abbrev hello_at : Memory → ℕ → ℕ → Memory
hello_at m a direction =
    put_hello (set_words (set_run m a 0 72) (a + 4) (72 ∷ 0 ∷ direction ∷ 0 ∷ [])) a

abbrev silent : Memory
silent = mailbox_at (mailbox_at (λ p. p % 251) 1000 0 0) 2000 0 0

-- the RTSS has answered
abbrev echoed : Memory
echoed =
    hello_at (mailbox_at (hello_at (mailbox_at (λ p. p % 251) 1000 1 1) 5000 0) 2000 1 0) 2096 1

abbrev answering : ℕ → Around
answering k = record {
  sys = record { ret = pos 0; errno = 0 };
  wakes =
      record {
        ret = pos 1;
        errno = 0;
        pollin = true;
        pollbad = false;
        read_errno = Option.none;
        mem = echoed;
      }
      ∷ record {
        ret = pos 0;
        errno = 0;
        pollin = false;
        pollbad = false;
        read_errno = Option.none;
        mem = silent;
      }
      ∷ [];
}

abbrev demo_end : Next
demo_end =
    hello_ping demo_api 1 (some to_rtss) (some from_rtss) 5000 6000 rtss_upd_lib_handle silent
      answering

abbrev is_success : Next → Bool
is_success (goto label s) = false
is_success (returns b s) = b
is_success (blocks s) = false

abbrev state_of : Next → Ping
state_of (goto label s) = s
state_of (returns b s) = s
state_of (blocks s) = s

success_returns : (next : Next) → is_success next ≡ true → next ≡ returns true (state_of next)
success_returns (goto label s) h = absurd (ground arith)
success_returns (returns true s) h = refl
success_returns (returns false s) h = absurd (ground arith)
success_returns (blocks s) h = absurd (ground arith)

demo_succeeds : is_success demo_end ≡ true
unfolding loops hello_ping run step ping_step recovery_step received_step check_step mismatch_step
    verify_handshake same_run ping_tx_msg_pack ping_rx_msg_pack send_msg crc_into set_run set_bytes
    set_words set_reg get_reg calculate_crc32 crc32_generate crc32_loop crc32_reflect crc8_reflect
    crc32_step crc32_ethernet_table Transfer.write trigger_behind trigger_ioctl Transfer.write_batch
    read_timed wait_items wake_error deliver Access.validate Access.write Access.read
    get_free_item_num get_valid_item_num valid_item free_item write_item read_item sanity_check
    libmbcopy_bytes copy_run
demo_succeeds = refl

demo_returns : demo_end ≡ returns true (state_of demo_end)
demo_returns = success_returns demo_end demo_succeeds

hello_ping_ends_example :
    ((b : Bool) × (s : Ping) × (demo_end ≡ returns b s)) ⊎ ((s : Ping) × (demo_end ≡ blocks s))
hello_ping_ends_example =
    hello_ping_ends demo_api 1 (some to_rtss) (some from_rtss) 5000 6000 rtss_upd_lib_handle silent
      answering

hello_ping_returns_example : (b : Bool) × (s : Ping) × (demo_end ≡ returns b s)
hello_ping_returns_example =
    hello_ping_returns demo_api 1 (some to_rtss) (some from_rtss) 5000 6000 rtss_upd_lib_handle
      silent answering (λ k. refl)

ready_end :
    is_ready demo_api 1
      (some to_rtss)
      (some from_rtss)
      5000
      6000
      rtss_upd_lib_handle
      silent
      answering
    ≡ demo_end
unfolding is_ready
ready_end = refl

is_ready_once_example :
    (s' : Ping) × (is_ready demo_api 1
        (some to_rtss)
        (some from_rtss)
        5000
        6000
        (state_of demo_end).lib
        echoed
        answering
      ≡ returns false s')
    × (s'.lib ≡ (state_of demo_end).lib)
    × (s'.mem ≡ echoed)
    × (s'.acts ≡ [])
is_ready_once_example =
    is_ready_once demo_api 1 (some to_rtss) (some from_rtss) 5000 6000 rtss_upd_lib_handle silent
      answering (state_of demo_end) (ready_end ∙ demo_returns) echoed answering

-- the first round of a handshake over the channel of the commands
abbrev first_round : Ping
first_round = record {
  timeout = pos 16000;
  retry_cnt = 0;
  err_cnt = 0;
  lib = rtss_upd_lib_handle;
  mem = with_messages;
  acts = [];
}

answer_clear :
    BufferApart with_messages message_channel.p_mb_base_addr message_channel.subregion_index 6000 1
unfolding with_messages get_reg set_reg
answer_clear = omega arith

ping_sends_example :
    (s' : Ping) × (l : List ℕ) × (ping_step demo_api 1
        (some message_channel)
        (some from_rtss)
        5000
        6000
        (record { ret = pos 0; errno = 0 })
        first_round
      ≡ goto at_recovery s')
    × IsHello l
    × (queue s'.mem message_channel.p_mb_base_addr message_channel.subregion_index
        ≡ queue with_messages message_channel.p_mb_base_addr message_channel.subregion_index
          ++ l ∷ [])
    × IsOpen s'.mem message_channel.p_mb_base_addr message_channel.subregion_index
    × (s'.acts ≡ [] ++ send_interrupt (evfdinfo_of message_channel demo_api.mode_tx (pos 0)) ∷ [])
    × (s'.retry_cnt ≡ 0 + 1)
ping_sends_example =
    ping_sends demo_api 1 message_channel (some from_rtss) 5000 6000 first_round
      message_channel-IsReady answer_clear (omega arith) (record { ret = pos 0; errno = 0 }) refl
      refl (omega arith)

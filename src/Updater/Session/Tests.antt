-- ===== src/Updater/Session/Tests.antt =====
-- A response in a channel, and runs of the theorems on it.
use rtss_mailbox_umd.Base.{
  ℕ, ◌+◌, ◌≡◌, refl, ◌==◌, arith, false, none, some, List, [], ◌∷◌, ◌++◌, tabulate,
}
use rtss_mailbox_umd.Memory.{Memory, get_reg, set_reg}
use rtss_mailbox_umd.Mailbox.Access.Open.{IsOpen, queue}
use rtss_mailbox_umd.Api.Handle.{Handle}
use rtss_mailbox_umd.Update.CrcTable.{crc32_ethernet_table}
use rtss_mailbox_umd.Update.Crc.{
  e_ok, verify_crc32, crc32_verify, crc32_generate, crc32_loop, crc32_step, crc32_reflect,
}
use rtss_mailbox_umd.Update.Message.Sealed.{word, unsealed}
use rtss_mailbox_umd.Updater.Response.{rtss_updater_hndshk, cbk_notify_handler}
use rtss_mailbox_umd.Updater.Response.Accepted.{Waiting, answered_by, hearing, response_taken}
use rtss_mailbox_umd.Updater.Request.{check_gpt, sendable}
use rtss_mailbox_umd.Updater.Session.{request, sends, answered, Setup, State, passes, ask}
use rtss_mailbox_umd.Updater.Session.Answered.{on_channels, ask_answered}
use rtss_mailbox_umd.Updater.Tests.{
  demo_api, accepted, message_channel, with_messages, message_channel-IsReady,
}

-- an answer to RTSS_UPD_MSG_CHECK_GPT in slot 3, with status 0
unfoldable pub with_response : Memory
unfolding with_messages
with_response =
    set_reg
      (set_reg
        (set_reg (set_reg (set_reg (set_reg with_messages 1088 0) 1312 2_230_925_005) 1316 72) 1320
          1)
        1324 1)
      1328 0

abbrev response : List ℕ
response = tabulate 72 (λ k. with_response (1312 + k))

with_response-IsOpen : IsOpen with_response 1000 0
unfolding with_response with_messages get_reg set_reg
with_response-IsOpen = record {
  not_null = omega arith;
  created = refl;
  index_in = omega arith;
  sane = record {
    not_null = omega arith;
    capacity_small = omega arith;
    size_small = omega arith;
    in_range = omega arith;
    out_range = omega arith;
  };
  fits = record { size_pos = omega arith; bytes_small = omega arith };
  behind = omega arith;
}

abbrev pub response_channel : Handle
response_channel = record message_channel { mode = 0 }

with_response-Waiting : Waiting demo_api with_response response_channel 6000 response []
unfolding with_response with_messages get_reg set_reg
with_response-Waiting = record {
  can_receive = record {
    fd_open = refl;
    receives = refl;
    size_same = refl;
    region_open = with_response-IsOpen;
  };
  for_messages = refl;
  placed = omega arith;
  clear = omega arith;
  first = refl;
}

response_taken_example :
    (m' : Memory) × (cbk_notify_handler 6000 demo_api with_response
        (some response_channel)
        rtss_updater_hndshk
        []
      ≡ some (m', answered_by response rtss_updater_hndshk))
    × (queue m' 1000 0 ≡ [])
    × IsOpen m' 1000 0
response_taken_example =
    response_taken demo_api with_response response_channel 6000 response [] with_response-Waiting
      rtss_updater_hndshk []

-- The checksum in the response is right, and its two sizes are stored.
response_verifies : verify_crc32 (word response 0) (some (unsealed response)) 72 ≡ e_ok
unfolding with_response with_messages set_reg verify_crc32 crc32_verify crc32_generate crc32_loop
    crc32_step crc32_reflect crc32_ethernet_table
response_verifies = refl

-- Every response is that one, and there is no file.
abbrev pub demo_setup : Setup
demo_setup = record {
  api = demo_api;
  tx = some message_channel;
  rx = some response_channel;
  tx_msg = 5000;
  rx_msg = 6000;
  p_va = 20000;
  s_va = 0x9000;
  entries = 40000;
  gpthdr = 50000;
  files = λ path. record {
    found = false;
    st_size = 0;
    owner_reads = false;
    opens = false;
    bytes = none;
  };
  turns = λ k. record { sys = accepted; leaves = λ m. with_response; wakes = [] };
}

abbrev pub demo_state : State
demo_state = record { mem = with_messages; hndshk = rtss_updater_hndshk; turn = 0; log = [] }

ask_answered_example :
    let (r, s') =
      ask
        (on_channels demo_setup message_channel response_channel)
        (request check_gpt)
        demo_state in
    (r ≡ passes (word response 16 == 0))
    × (s'.hndshk ≡ answered_by response rtss_updater_hndshk)
    × (s'.log
        ≡ ([] ++ sends (request check_gpt) ∷ [])
          ++ answered (hearing response) (word response 16) ∷ [])
unfolding sendable
ask_answered_example =
    ask_answered demo_setup message_channel response_channel demo_state check_gpt response []
      message_channel-IsReady refl refl with_response-Waiting

-- The status there is 0, so the sequence goes on.
response_passes : word response 16 ≡ 0
unfolding with_response with_messages set_reg
response_passes = refl

-- ===== src/Update/Handshake/Hello.antt =====
-- What a round of the handshake sends: the HELLO of rtss_update_lib.h.
use rtss_mailbox_umd.Base.{
  ℕ, ◌+◌, ◌≤◌, ◌<◌, ◌≡◌, refl, sym, ◌∙◌, arith, some, List, [], ◌∷◌, ◌++◌, Option, get_or,
  get_or-tabulate, tabulate_ext, le→ltb,
}
use rtss_mailbox_umd.Base.Int.{pos}
use rtss_mailbox_umd.Memory.{Memory, get_reg, set_reg}
use rtss_mailbox_umd.Memory.Word.{
  Apart, get_reg_ext, get_reg-set_reg, get_reg-set_reg-Apart, set_reg-Apart,
}
use rtss_mailbox_umd.Mailbox.Access.{sub_region_base}
use rtss_mailbox_umd.Mailbox.Access.Open.{IsOpen, queue, queue_cap, queue_size, BufferApart}
use rtss_mailbox_umd.Mailbox.Access.Frame.{SameRegion, region_kept}
use rtss_mailbox_umd.Api.Handle.{Uapi, Handle, SysRet, send_interrupt, evfdinfo_of}
use rtss_mailbox_umd.Api.Transfer.{write_batch}
use rtss_mailbox_umd.Update.Message.{msg_size, set_run, set_bytes, set_words, set_byte}
use rtss_mailbox_umd.Update.Message.Compose.{
  Only, Only-trans, Only-wider, set_run-Only, set_reg-Only, set_bytes-Only, set_words-Only, word_at,
  Composed,
}
use rtss_mailbox_umd.Update.Message.Sealed.{
  IsRequest, word, bytes_at, word-bytes_at, sealed, crc_into_message, sealed-Only, sealed-IsRequest,
}
use rtss_mailbox_umd.Update.Handshake.{
  put_hello, ping_tx_msg_pack, ping_rx_msg_pack, ping_step, Ping, goto, at_recovery, ping_err_limit,
}
use rtss_mailbox_umd.Updater.Command.Transmit.{IsReady, sent, send_msg_sends}

-- A request with the identifier 0, the text "HELLO" with its NUL, and the version 1.0.
pub record IsHello (l : List ℕ) : Type 0 where
  pub request : IsRequest l 0
  pub text :
      (get_or l 20 0 ≡ b'H')
      × (get_or l 21 0 ≡ b'E')
      × (get_or l 22 0 ≡ b'L')
      × (get_or l 23 0 ≡ b'L')
      × (get_or l 24 0 ≡ b'O')
      × (get_or l 25 0 ≡ 0)
  pub major : word l 52 ≡ 1
  pub minor : word l 56 ≡ 0

module _ (m : Memory) (msg : ℕ) where
  abbrev headed : Memory
  headed = set_words (set_run m msg 0 72) (msg + 4) (72 ∷ 0 ∷ 0 ∷ 0 ∷ [])

  abbrev filled : Memory
  filled = put_hello headed msg

  abbrev packed : Memory
  packed = set_reg filled msg 0

  body-Only : Only (msg + 20) 52 headed filled
  body-Only =
      Only-trans (msg + 20) 52
        (Only-wider (msg + 20) 6 (msg + 20) 52
          (set_bytes-Only headed (msg + 20) (72 ∷ 69 ∷ 76 ∷ 76 ∷ 79 ∷ 0 ∷ [])) (omega arith)
          (omega arith))
        (Only-wider (msg + 20 + 32) 8 (msg + 20) 52 (set_words-Only _ (msg + 20 + 32) (1 ∷ 0 ∷ []))
          (omega arith) (omega arith))

  header_kept : (k : ℕ) → 4 ≤ k → k + 4 ≤ 20 → get_reg packed (msg + k) ≡ get_reg headed (msg + k)
  header_kept k l u =
      get_reg-set_reg-Apart filled msg (msg + k) 0 (omega arith)
      ∙ get_reg_ext filled headed (msg + k) (λ p l' u'. body-Only p (omega arith))

  hello-Composed : Composed m msg 0 packed
  unfolding set_words
  hello-Composed = record {
    only = Only-trans msg 72 (set_run-Only m msg 0 72) (
        Only-trans msg 72
          (Only-wider (msg + 4) 16 msg 72
            (set_words-Only (set_run m msg 0 72) (msg + 4) (72 ∷ 0 ∷ 0 ∷ 0 ∷ [])) (omega arith)
            (omega arith))
          (Only-trans msg 72 (Only-wider (msg + 20) 52 msg 72 body-Only (omega arith) (omega arith))
            (Only-wider msg 4 msg 72 (set_reg-Only filled msg 0) (omega arith) (omega arith))));
    crc_clear = get_reg-set_reg filled msg 0 (omega arith);
    size_set =
        header_kept 4 (omega arith) (omega arith)
        ∙ word_at _ _ _ 72 (0 ∷ 0 ∷ 0 ∷ []) (omega arith) (omega arith);
    id_set =
        header_kept 8 (omega arith) (omega arith)
        ∙ word_at _ _ _ 0 (0 ∷ 0 ∷ []) (omega arith) (omega arith);
    direction_set =
        header_kept 12 (omega arith) (omega arith)
        ∙ word_at _ _ _ 0 (0 ∷ []) (omega arith) (omega arith);
    status_clear =
        header_kept 16 (omega arith) (omega arith) ∙ word_at _ _ _ 0 [] (omega arith) (omega arith);
  }

  abbrev ready : Memory
  ready = sealed m msg 0 packed hello-Composed

  -- Only the checksum is stored behind the text and the version.
  body_held : (k : ℕ) → 20 ≤ k → ready (msg + k) ≡ filled (msg + k)
  body_held k l =
      set_reg-Apart packed msg _ (msg + k) (omega arith)
      ∙ set_reg-Apart filled msg 0 (msg + k) (omega arith)

  byte_held :
      (k : ℕ)
      → 20 ≤ k
      → k < 26
      → get_or (bytes_at ready msg) k 0
        ≡ set_bytes headed (msg + 20) (72 ∷ 69 ∷ 76 ∷ 76 ∷ 79 ∷ 0 ∷ []) (msg + k)
  byte_held k l u =
      get_or-tabulate 72 (λ j. ready (msg + j)) k 0 (omega arith)
      ∙ body_held k l
      ∙ set_words-Only _ (msg + 20 + 32) (1 ∷ 0 ∷ []) (msg + k) (omega arith)

  word_held : (k : ℕ) → 20 ≤ k → k + 4 ≤ 72 → word (bytes_at ready msg) k ≡ get_reg filled (msg + k)
  word_held k l u =
      word-bytes_at ready msg k u
      ∙ get_reg-set_reg-Apart packed msg (msg + k) _ (omega arith)
      ∙ get_reg-set_reg-Apart filled msg (msg + k) 0 (omega arith)

  ready-IsHello : IsHello (bytes_at ready msg)
  unfolding set_bytes set_byte set_run set_words
  ready-IsHello = record {
    request = sealed-IsRequest m msg 0 packed hello-Composed;
    text = (
      byte_held 20 (omega arith) (omega arith) ∙ ground arith,
      byte_held 21 (omega arith) (omega arith) ∙ ground arith,
      byte_held 22 (omega arith) (omega arith) ∙ ground arith,
      byte_held 23 (omega arith) (omega arith) ∙ ground arith,
      byte_held 24 (omega arith) (omega arith) ∙ ground arith,
      byte_held 25 (omega arith) (omega arith) ∙ ground arith,
    );
    major =
        word_held 52 (omega arith) (omega arith)
        ∙ word_at _ _ _ 1 (0 ∷ []) (omega arith) (omega arith);
    minor =
        word_held 56 (omega arith) (omega arith) ∙ word_at _ _ _ 0 [] (omega arith) (omega arith);
  }

module _ (api : Uapi) (mode : ℕ) (tx : Handle) (rx : Option Handle) (tx_msg rx_msg : ℕ) (s : Ping)
    (r : IsReady api s.mem tx tx_msg)
    (rx_clear : BufferApart s.mem tx.p_mb_base_addr tx.subregion_index rx_msg 1)
    (messages_apart : Apart tx_msg 72 rx_msg 72) where
  abbrev mb : ℕ
  mb = tx.p_mb_base_addr

  abbrev i : ℕ
  i = tx.subregion_index

  -- Both messages as they are when the HELLO is sent.
  abbrev before : Memory
  before = set_run (ready s.mem tx_msg) rx_msg 0 72

  size_72 : queue_size s.mem mb i ≡ 72
  size_72 = sym r.can_send.size_same ∙ r.for_messages

  same_region : SameRegion s.mem before mb i
  same_region p l u =
      set_run-Only (ready s.mem tx_msg) rx_msg 0 72 p (omega (arith, rx_clear, size_72))
      ∙ sealed-Only s.mem tx_msg 0 (packed s.mem tx_msg) (hello-Composed s.mem tx_msg) p
          (omega (arith, r.clear, size_72))

  kept :
      IsOpen before mb i
      × (sub_region_base before mb i ≡ sub_region_base s.mem mb i)
      × (queue_cap before mb i ≡ queue_cap s.mem mb i)
      × (queue_size before mb i ≡ queue_size s.mem mb i)
      × (queue before mb i ≡ queue s.mem mb i)
  kept = region_kept s.mem before mb i r.can_send.region_open same_region

  before-IsReady : IsReady api before tx tx_msg
  before-IsReady = record {
    can_send = record {
      fd_open = r.can_send.fd_open;
      sends = r.can_send.sends;
      size_same = r.can_send.size_same ∙ sym kept.3;
      region_open = kept.0;
    };
    for_messages = r.for_messages;
    placed = r.placed;
    room = rw (kept.4, kept.2) r.room;
    clear = rw (kept.3, kept.2) (omega (arith, r.clear, kept.1));
  }

  message_same : bytes_at before tx_msg ≡ bytes_at (ready s.mem tx_msg) tx_msg
  message_same =
      tabulate_ext 72 _ _
        (λ k u. set_run-Only (ready s.mem tx_msg) rx_msg 0 72 (tx_msg + k) (omega arith))

  abbrev after : Memory
  after = (write_batch api before (some tx) tx_msg 72).1

  -- On a channel that is ready, with an answer of 0 from the kernel, both messages clear of the mailbox
  -- and of each other, and no more errors than allowed, a round of the handshake sends one HELLO with
  -- the text, the version and a right checksum, interrupts the receiver, and goes on to the response.
  pub ping_sends :
      (sys : SysRet)
      → sys.ret ≡ pos 0
      → s.lib.msgsz ≡ msg_size
      → s.err_cnt ≤ ping_err_limit
      → (s' : Ping) × (l : List ℕ) × (ping_step api mode (some tx) rx tx_msg rx_msg sys s
          ≡ goto at_recovery s')
        × IsHello l
        × (queue s'.mem mb i ≡ queue s.mem mb i ++ l ∷ [])
        × IsOpen s'.mem mb i
        × (s'.acts ≡ s.acts ++ send_interrupt (evfdinfo_of tx api.mode_tx (pos 0)) ∷ [])
        × (s'.retry_cnt ≡ s.retry_cnt + 1)
  unfolding ping_step ping_tx_msg_pack ping_rx_msg_pack
  ping_sends sys ok whole few =
      let only : Only tx_msg 72 before before = λ p out. refl in
      let p = sent api before tx tx_msg before-IsReady before only in
      (
        record s {
          retry_cnt = s.retry_cnt + 1;
          mem = after;
          acts = s.acts ++ send_interrupt (evfdinfo_of tx api.mode_tx (pos 0)) ∷ [];
        },
        bytes_at (ready s.mem tx_msg) tx_msg,
        rw
            (
              whole,
              crc_into_message s.mem tx_msg 0 (packed s.mem tx_msg) (hello-Composed s.mem tx_msg)
                  r.placed,
              send_msg_sends api before tx tx_msg before-IsReady before only sys ok,
              le→ltb s.err_cnt 10 few,
            )
            refl,
        ready-IsHello s.mem tx_msg,
        p.0 ∙ rw (kept.4, message_same) refl,
        p.1,
        refl,
        refl,
      )

-- ===== src/Updater/Command/Transmit.antt =====
-- What a command has sent once its last steps are through.
use rtss_mailbox_umd.Base.{
  ℕ, ◌+◌, ◌*◌, ◌/◌, ◌≤◌, ◌<◌, ◌≡◌, ◌≢◌, refl, sym, ap, ◌∙◌, arith, some, List, [], ◌∷◌, ◌++◌,
  length, tabulate, tabulate_ext,
}
use rtss_mailbox_umd.Base.Int.{pos}
use rtss_mailbox_umd.Memory.{Memory}
use rtss_mailbox_umd.Mailbox.Access.{sub_region_base}
use rtss_mailbox_umd.Mailbox.Access.Open.{IsOpen, queue, queue_cap, queue_size, BufferApart}
use rtss_mailbox_umd.Mailbox.Access.Frame.{SameRegion, region_kept}
use rtss_mailbox_umd.Api.Handle.{Uapi, Handle, evfdinfo_of, SysRet, send_interrupt}
use rtss_mailbox_umd.Api.Transfer.{write_batch}
use rtss_mailbox_umd.Api.Transfer.Send.{CanSend, write_batch_sends, write_interrupts}
use rtss_mailbox_umd.Update.Crc.{e_ok}
use rtss_mailbox_umd.Update.Message.{msg_size, send_msg}
use rtss_mailbox_umd.Update.Message.Compose.{Only, Composed}
use rtss_mailbox_umd.Update.Message.Sealed.{
  IsRequest, bytes_at, sealed, crc_into_message, sealed-Only, sealed-IsRequest,
}
use rtss_mailbox_umd.Updater.Command.{Outcome, exit_success, transmit}

-- The channel takes one more message, and the message at `msg` does not meet its mailbox.
pub record IsReady (api : Uapi) (m : Memory) (h : Handle) (msg : ℕ) : Type 0 where
  pub can_send : CanSend api m h
  pub for_messages : h.subchan_item_size ≡ msg_size
  pub placed : msg ≢ 0
  pub room :
      length (queue m h.p_mb_base_addr h.subregion_index) + 1
      < queue_cap m h.p_mb_base_addr h.subregion_index
  pub clear : BufferApart m h.p_mb_base_addr h.subregion_index msg 1

-- One request with the identifier has been appended to the queue, and the receiver interrupted.
pub record IsRequested (api : Uapi) (m : Memory) (h : Handle) (id : ℕ) (o : Outcome) : Type 0 where
  pub succeeds : o.0 ≡ exit_success
  pub interrupts : o.2 ≡ send_interrupt (evfdinfo_of h api.mode_tx (pos 0)) ∷ []
  pub request : List ℕ
  pub request-IsRequest : IsRequest request id
  pub queued :
      queue o.1 h.p_mb_base_addr h.subregion_index
      ≡ queue m h.p_mb_base_addr h.subregion_index ++ request ∷ []
  pub stays_open : IsOpen o.1 h.p_mb_base_addr h.subregion_index

module _ (api : Uapi) (m : Memory) (h : Handle) (msg : ℕ) (r : IsReady api m h msg) where
  abbrev mb : ℕ
  mb = h.p_mb_base_addr

  abbrev i : ℕ
  i = h.subregion_index

  size_72 : queue_size m mb i ≡ 72
  size_72 = sym r.can_send.size_same ∙ r.for_messages

  module _ (m' : Memory) (only : Only msg msg_size m m') where
    same_region : SameRegion m m' mb i
    same_region p l u = only p (omega (arith, r.clear, size_72))

    kept :
        IsOpen m' mb i
        × (sub_region_base m' mb i ≡ sub_region_base m mb i)
        × (queue_cap m' mb i ≡ queue_cap m mb i)
        × (queue_size m' mb i ≡ queue_size m mb i)
        × (queue m' mb i ≡ queue m mb i)
    kept = region_kept m m' mb i r.can_send.region_open same_region

    still_can : CanSend api m' h
    still_can = record {
      fd_open = r.can_send.fd_open;
      sends = r.can_send.sends;
      size_same = r.can_send.size_same ∙ sym kept.3;
      region_open = kept.0;
    }

    abbrev one : ℕ
    one = 72 / h.subchan_item_size

    one_lem : one ≡ 1
    one_lem = rw r.for_messages refl

    room' :
        72 + (length (queue m' mb i) + 1) * h.subchan_item_size
        ≤ queue_cap m' mb i * h.subchan_item_size
    room' = rw (kept.4, kept.2, r.for_messages) (omega (arith, r.room))

    apart' : BufferApart m' mb i msg one
    apart' = rw (one_lem, kept.3, kept.2) (omega (arith, r.clear, kept.1))

    pub sent :
        let m'' = (write_batch api m' (some h) msg 72).1 in
        (queue m'' mb i ≡ queue m mb i ++ bytes_at m' msg ∷ []) × IsOpen m'' mb i
    sent =
        let p =
          write_batch_sends api m' h still_can msg 72 r.placed (omega arith) room' (omega arith)
            apart' in
        (p.1 ∙ rw (kept.4, one_lem, r.for_messages) (ap (λ l. queue m mb i ++ l ∷ []) letter), p.2)
      where
        letter : tabulate 72 (λ k. m' (msg + 0 * 72 + k)) ≡ bytes_at m' msg
        letter =
            tabulate_ext 72 (λ k. m' (msg + 0 * 72 + k)) (λ k. m' (msg + k))
              (λ k h. ap m' (omega arith))

    pub send_msg_sends :
        (sys : SysRet)
        → sys.ret ≡ pos 0
        → send_msg api m' msg (some h) sys ≡ (
          e_ok,
          (write_batch api m' (some h) msg 72).1,
          send_interrupt (evfdinfo_of h api.mode_tx (pos 0)) ∷ [],
        )
    unfolding send_msg
    send_msg_sends sys ok =
        rw
          (
            write_interrupts api m' h still_can msg 72 r.placed (omega arith) room' sys ok
                (omega arith) (omega (arith, r.for_messages)) apart',
            one_lem,
            r.for_messages,
          )
          (ground (arith, r.placed))

  -- The last steps of a command, on a message that is composed.
  pub transmit_requests :
      (id : ℕ) (m' : Memory)
      → Composed m msg id m'
      → (sys : SysRet) → sys.ret ≡ pos 0
      → IsRequested api m h id (transmit api (some h) sys msg m')
  unfolding transmit
  transmit_requests id m' c sys ok =
      let p = sent (sealed m msg id m' c) (sealed-Only m msg id m' c) in
      rw
        (
          crc_into_message m msg id m' c r.placed,
          send_msg_sends (sealed m msg id m' c) (sealed-Only m msg id m' c) sys ok,
        )
        (record {
          succeeds = refl;
          interrupts = refl;
          request = bytes_at (sealed m msg id m' c) msg;
          request-IsRequest = sealed-IsRequest m msg id m' c;
          queued = p.0;
          stays_open = p.1;
        })

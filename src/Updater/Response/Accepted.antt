-- ===== src/Updater/Response/Accepted.antt =====
-- A response that waits in the channel, and what the handler makes of it.
use rtss_mailbox_umd.Base.{
  ℕ, ◌+◌, ◌*◌, ◌/◌, ◌≤◌, ◌<◌, ◌≡◌, ◌≢◌, refl, sym, ap, ap₂, ◌∙◌, arith, if◌then◌else◌, ◌==◌, dec_lt,
  lt→ltb, le→ltb, some, List, ◌∷◌, ◌++◌, length, min, get_or-tabulate, tabulate, tabulate_ext,
}
use rtss_mailbox_umd.Base.Int.{pos, negsuc}
use rtss_mailbox_umd.Memory.{Memory, get_reg, set_reg}
use rtss_mailbox_umd.Memory.Word.{get_reg-set_reg-Apart, set_reg-Apart}
use rtss_mailbox_umd.Mailbox.Ring.Item.{items}
use rtss_mailbox_umd.Mailbox.Access
use rtss_mailbox_umd.Mailbox.Access.{sub_region_base}
use rtss_mailbox_umd.Mailbox.Access.Open.{IsOpen, queue, queue_cap, queue_size, BufferApart}
use rtss_mailbox_umd.Mailbox.Access.Frame.{SameRegion, region_kept}
use rtss_mailbox_umd.Mailbox.Access.Receive.{read_removes, read_keeps}
use rtss_mailbox_umd.Api.Handle.{Uapi, Handle}
use rtss_mailbox_umd.Api.Transfer
use rtss_mailbox_umd.Api.Transfer.{Wake}
use rtss_mailbox_umd.Api.Transfer.Receive.{CanReceive, read_timed_runs}
use rtss_mailbox_umd.Update.Crc.{e_ok, verify_crc32}
use rtss_mailbox_umd.Update.Crc.Ext.{verify_crc32_ext}
use rtss_mailbox_umd.Update.Message.{msg_size, set_run, read_msg}
use rtss_mailbox_umd.Update.Message.Compose.{set_run-Only}
use rtss_mailbox_umd.Update.Message.Sealed.{word, unsealed, bytes_at, word-bytes_at}
use rtss_mailbox_umd.Updater.Response.{
  Handshake, rtss_updater_hndshk, Heard, intact, damaged, heard, union_at, check_response,
  response_read, cbk_notify_handler,
}
use rtss_mailbox_umd.Updater.Response.Dispatch.{dispatch_ext}
use rtss_mailbox_umd.Updater.Response.Carried.{carried, dispatch-carried}

-- A message waits in an open channel for messages, and `RxMsg` does not meet its mailbox.
pub record Waiting (api : Uapi) (m : Memory) (rx : Handle) (rx_msg : ℕ) (l : List ℕ)
    (rest : List (List ℕ)) : Type 0 where
  pub can_receive : CanReceive api m rx
  pub for_messages : rx.subchan_item_size ≡ msg_size
  pub placed : rx_msg ≢ 0
  pub clear : BufferApart m rx.p_mb_base_addr rx.subregion_index rx_msg 1
  pub first : queue m rx.p_mb_base_addr rx.subregion_index ≡ l ∷ rest

-- What a message with these bytes leaves in the handshake: its status and its identifier, and, if its
-- checksum holds, what it carries by the structures of the messages.
abbrev pub answered_by : List ℕ → Handshake → Handshake
answered_by l h =
    let h' = record h { resp_status = word l 16; msg_id = word l 8 } in
    if verify_crc32 (word l 0) (some (unsealed l)) msg_size == e_ok
    then carried (λ k. word l (20 + k)) (word l 8) h'
    else h'

-- Whether its checksum is the one of its bytes.
abbrev pub hearing : List ℕ → Heard
hearing l = if verify_crc32 (word l 0) (some (unsealed l)) msg_size == e_ok then intact else damaged

module _ (m : Memory) (rx_msg : ℕ) (h : Handshake) where
  abbrev l : List ℕ
  l = bytes_at m rx_msg

  abbrev m' : Memory
  m' = set_reg m rx_msg 0

  set_zero : (k : ℕ) → k < 4 → m' (rx_msg + k) ≡ 0
  unfolding set_reg
  set_zero k u = ground arith

  unsealed_same : (k : ℕ) → k < 72 → m' (rx_msg + k) ≡ unsealed l k
  unsealed_same k u = elim (dec_lt k 4) [
    | yes low ↦ rw (lt→ltb k 4 low) (set_zero k low)
    | no high ↦
        rw (le→ltb 4 k (omega arith), get_or-tabulate 72 (λ j. m (rx_msg + j)) k 0 u)
          (set_reg-Apart m rx_msg 0 (rx_msg + k) (omega arith))
  ]

  checked :
      verify_crc32 (get_reg m rx_msg) (some (λ k. m' (rx_msg + k))) 72
      ≡ verify_crc32 (word l 0) (some (unsealed l)) 72
  checked =
      verify_crc32_ext (get_reg m rx_msg) 72 (λ k. m' (rx_msg + k)) (unsealed l) unsealed_same
      ∙ ap (λ (c : ℕ). verify_crc32 c (some (unsealed l)) 72)
          (sym (
            word-bytes_at m rx_msg 0 (omega arith)
            ∙ ap (get_reg m) (let z : rx_msg + 0 ≡ rx_msg = omega arith in z)))

  field : (k : ℕ) → 4 ≤ k → k + 4 ≤ 72 → get_reg m' (rx_msg + k) ≡ word l k
  field k lo u =
      get_reg-set_reg-Apart m rx_msg (rx_msg + k) 0 (omega arith) ∙ sym (word-bytes_at m rx_msg k u)

  union_same : (k : ℕ) → k ≤ 48 → union_at m' rx_msg k ≡ word l (20 + k)
  union_same k u =
      ap (get_reg m') (let z : rx_msg + 20 + k ≡ rx_msg + (20 + k) = omega arith in z)
      ∙ field (20 + k) (omega arith) (omega arith)

  -- From the message in `RxMsg` on.
  check_response_lem : check_response rx_msg m h ≡ (m', answered_by l h)
  unfolding check_response
  check_response_lem =
      rw
        (
          checked,
          field 8 (omega arith) (omega arith),
          sym (word-bytes_at m rx_msg 8 (omega arith)),
          sym (word-bytes_at m rx_msg 16 (omega arith)),
          dispatch_ext (union_at m' rx_msg) (λ k. word l (20 + k)) (word l 8)
              (record h { resp_status = word l 16; msg_id = word l 8 }) union_same,
          dispatch-carried (λ k. word l (20 + k)) (word l 8)
              (record h { resp_status = word l 16; msg_id = word l 8 }),
        )
        (ground arith)

  heard_lem : heard rx_msg (some (e_ok, m)) ≡ hearing l
  unfolding heard
  heard_lem = rw checked refl

module _ (api : Uapi) (m : Memory) (rx : Handle) (rx_msg : ℕ) (l : List ℕ) (rest : List (List ℕ))
    (w : Waiting api m rx rx_msg l rest) where
  abbrev mb : ℕ
  mb = rx.p_mb_base_addr

  abbrev i : ℕ
  i = rx.subregion_index

  abbrev size : ℕ
  size = rx.subchan_item_size

  size_72 : queue_size m mb i ≡ 72
  size_72 = sym w.can_receive.size_same ∙ w.for_messages

  -- `RxMsg` is cleared first.
  abbrev m0 : Memory
  m0 = set_run m rx_msg 0 72

  same_region : SameRegion m m0 mb i
  same_region p lo u = set_run-Only m rx_msg 0 72 p (omega (arith, w.clear, size_72))

  kept :
      IsOpen m0 mb i
      × (sub_region_base m0 mb i ≡ sub_region_base m mb i)
      × (queue_cap m0 mb i ≡ queue_cap m mb i)
      × (queue_size m0 mb i ≡ queue_size m mb i)
      × (queue m0 mb i ≡ queue m mb i)
  kept = region_kept m m0 mb i w.can_receive.region_open same_region

  can0 : CanReceive api m0 rx
  can0 = record {
    fd_open = w.can_receive.fd_open;
    receives = w.can_receive.receives;
    size_same = w.can_receive.size_same ∙ sym kept.3;
    region_open = kept.0;
  }

  queue0 : queue m0 mb i ≡ l ∷ rest
  queue0 = kept.4 ∙ w.first

  abbrev taken : ℕ
  taken = min (length (queue m0 mb i)) (72 / size)

  taken_one : taken ≡ 1
  taken_one = rw (queue0, w.for_messages) (omega arith)

  apart0 : BufferApart m0 mb i rx_msg taken
  apart0 = rw (taken_one, kept.3, kept.2) (omega (arith, w.clear, kept.1))

  abbrev m1 : Memory
  m1 = (Access.read m0 mb rx_msg taken i).1

  reads :
      (wakes : List Wake)
      → Transfer.read api m0 (some rx) rx_msg 72 wakes ≡ some (pos (taken * size), m1)
  unfolding Transfer.read
  reads wakes =
      read_timed_runs api m0 rx can0 rx_msg 72 w.placed (omega arith) apart0 (negsuc 0) wakes refl
        (omega (arith, w.for_messages)) (rw queue0 (omega arith))

  got : (wakes : List Wake) → read_msg api m0 rx_msg (some rx) wakes ≡ some (e_ok, m1)
  unfolding read_msg
  got wakes =
      let seventy_two : taken * size ≡ 72 = rw (taken_one, w.for_messages) refl in
      rw (reads wakes, seventy_two) (ground (arith, w.placed))

  one : min (length (queue m0 mb i)) taken ≡ 1
  one = rw (taken_one, queue0) (omega arith)

  apart1 : BufferApart m0 mb i rx_msg (min (length (queue m0 mb i)) taken)
  apart1 = rw (one, kept.3, kept.2) (omega (arith, w.clear, kept.1))

  bytes_same : tabulate 72 (λ k. m1 (rx_msg + 0 * 72 + k)) ≡ bytes_at m1 rx_msg
  bytes_same =
      tabulate_ext 72 (λ k. m1 (rx_msg + 0 * 72 + k)) (λ k. m1 (rx_msg + k))
        (λ k u. ap m1 (omega arith))

  removed : (l ∷ rest ≡ bytes_at m1 rx_msg ∷ queue m1 mb i) × IsOpen m1 mb i
  removed =
      let p = read_removes m0 mb i kept.0 rx_msg taken w.placed apart1 in
      (
        sym queue0
            ∙ p.1
            ∙ ap (λ (k : ℕ). items m1 rx_msg (queue_size m0 mb i) k ++ queue m1 mb i) one
            ∙ ap (λ (s : ℕ). items m1 rx_msg s 1 ++ queue m1 mb i) (kept.3 ∙ size_72)
            ∙ ap (λ (b : List ℕ). b ∷ queue m1 mb i) bytes_same,
        p.2,
      )

  keeps :
      (sub_region_base m1 mb i ≡ sub_region_base m0 mb i)
      × (queue_cap m1 mb i ≡ queue_cap m0 mb i)
      × (queue_size m1 mb i ≡ queue_size m0 mb i)
  keeps = read_keeps m0 mb i kept.0 rx_msg taken w.placed apart1

  abbrev m2 : Memory
  m2 = set_reg m1 rx_msg 0

  same_region2 : SameRegion m1 m2 mb i
  same_region2 p lo u =
      set_reg-Apart m1 rx_msg 0 p (omega (arith, w.clear, size_72, kept.1, keeps.0, products))
    where
      products : queue_cap m1 mb i * queue_size m1 mb i ≡ queue_cap m mb i * queue_size m mb i
      products = ap₂ ◌*◌ (keeps.1 ∙ kept.2) (keeps.2 ∙ kept.3)

  head_same : l ≡ bytes_at m1 rx_msg
  head_same = ground (arith, removed.0)

  -- What it could read is the message.
  pub read_msg-heard :
      (wakes : List Wake)
      → heard rx_msg (read_msg api (set_run m rx_msg 0 msg_size) rx_msg (some rx) wakes) ≡ hearing l
  read_msg-heard wakes = rw (got wakes, heard_lem m1 rx_msg rtss_updater_hndshk, head_same) refl

  -- The handler does not wait for a message that is there. It takes it off the queue, keeps the
  -- channel open, and notes its status and identifier; exactly if its checksum is the one of its
  -- bytes, the members that it carries are stored too, each from its place in the structure of the
  -- message.
  pub response_taken :
      (h : Handshake) (wakes : List Wake)
      → (m' : Memory) × (cbk_notify_handler rx_msg api m (some rx) h wakes
          ≡ some (m', answered_by l h))
        × (queue m' mb i ≡ rest)
        × IsOpen m' mb i
  response_taken h wakes =
      let again = region_kept m1 m2 mb i removed.1 same_region2 in
      (m2, runs, again.4 ∙ tail_same, again.0)
    where
      tail_same : queue m1 mb i ≡ rest
      tail_same = ground (arith, removed.0)

      runs : cbk_notify_handler rx_msg api m (some rx) h wakes ≡ some (m2, answered_by l h)
      runs =
          unfold cbk_notify_handler response_read in
          rw (got wakes, check_response_lem m1 rx_msg h, head_same) refl

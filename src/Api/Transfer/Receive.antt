-- ===== src/Api/Transfer/Receive.antt =====
-- What `rtss_mb_read_timed` receives where items are there already.
use native.Mathlib.Nat.{mod-eq_of_lt, le-div_iff_mul-le, div-lt_iff_lt-mul, mul-div-le}
use rtss_mailbox_umd.Base.{
  ℕ, zero, suc, ◌*◌, ◌/◌, ◌^◌, ◌≤◌, ◌<◌, ◌≡◌, ◌≢◌, refl, sym, ap, ◌∙◌, arith, false, ltb, lt→ltb,
  le→ltb, if◌then◌else◌, u64, some, List, [], ◌∷◌, ◌++◌, length, min, dec_lt,
}
use rtss_mailbox_umd.Base.Int.{ℤ, pos, int32, int32_small, uint32, is_neg}
use rtss_mailbox_umd.Memory.{Memory}
use rtss_mailbox_umd.Mailbox.Ring.Item.{items, mul_mono}
use rtss_mailbox_umd.Mailbox.Access
use rtss_mailbox_umd.Mailbox.Access.Open.{
  IsOpen, queue, queue_cap, queue_size, BufferApart, free_room,
}
use rtss_mailbox_umd.Mailbox.Access.Receive.{read_removes}
use rtss_mailbox_umd.Mailbox.Access.Counts.{counters_exact}
use rtss_mailbox_umd.Api.Handle.{Uapi, Handle}
use rtss_mailbox_umd.Api.Transfer.{Wake, read_timed, wait_items, deliver, bad_timeout, bytes_of}
use rtss_mailbox_umd.Api.Transfer.Send.{bytes_of_small}

-- An open channel that receives, on an open sub-region with the item size of the handle.
pub record CanReceive (api : Uapi) (m : Memory) (h : Handle) : Type 0 where
  pub fd_open : is_neg h.fd ≡ false
  pub receives : h.mode ≡ api.mode_rx
  pub size_same : h.subchan_item_size ≡ queue_size m h.p_mb_base_addr h.subregion_index
  pub region_open : IsOpen m h.p_mb_base_addr h.subregion_index

-- The loop does not wait where there are items.
wait_items_ready :
    (m : Memory) (mb i n : ℕ) (wakes : List Wake)
    → 0 < n
    → wait_items m mb i (pos n) wakes ≡ some (pos 0, pos n, m)
unfolding wait_items
wait_items_ready m mb i zero wakes h = absurd (omega arith)
wait_items_ready m mb i (suc n) [] h = refl
wait_items_ready m mb i (suc n) (w ∷ ws) h = refl

module _ (api : Uapi) (m : Memory) (h : Handle) (c : CanReceive api m h) where
  abbrev mb : ℕ
  mb = h.p_mb_base_addr

  abbrev i : ℕ
  i = h.subregion_index

  abbrev size : ℕ
  size = h.subchan_item_size

  abbrev there : ℕ
  there = length (queue m mb i)

  size_pos : 0 < size
  size_pos = rw c.size_same c.region_open.fits.size_pos

  there_small : there < queue_cap m mb i
  there_small = omega (arith, free_room m mb i c.region_open)

  bytes_small : there * size < 2 ^ 32
  bytes_small = rw c.size_same (
      omega (
        arith,
        c.region_open.fits.bytes_small,
        there_small,
        mul_mono there (queue_cap m mb i) (queue_size m mb i) (omega (arith, there_small)),
      ))

  there_bytes : u64 (uint32 (pos there) * size) ≡ there * size
  there_bytes =
      let few : uint32 (pos there) ≡ there = omega (arith, there_small, c.region_open.sane) in
      rw few (mod-eq_of_lt {n = there * size} {m = 2 ^ 64} (omega (arith, bytes_small)))

  -- the number of items that the code asks for
  wanted_lem :
      (sz : ℕ)
      → (if ltb sz (u64 (uint32 (pos there) * size)) then int32 (sz / size) else pos there)
        ≡ pos (min there (sz / size))
  wanted_lem sz = rw there_bytes (elim (dec_lt sz (there * size)) [
    | yes short ↦
        let fewer : sz / size < there =
          (div-lt_iff_lt-mul {k = size} {x = sz} {y = there} size_pos).1 short in
        rw (lt→ltb sz (there * size) short) (
          int32_small (sz / size) (omega (arith, fewer, there_small, c.region_open.sane))
          ∙ ap pos (omega arith))
    | no enough ↦
        let all : there ≤ sz / size =
          (le-div_iff_mul-le {k = size} {x = there} {y = sz} size_pos).1 (omega arith) in
        rw (le→ltb (there * size) sz (omega arith)) (ap pos (omega arith))
  ])

  module _ (buf sz : ℕ) (buf_ok : buf ≢ 0) (small : sz < 2 ^ 31)
      (apart : BufferApart m mb i buf (min there (sz / size))) where
    abbrev taken : ℕ
    taken = min there (sz / size)

    idem : min there taken ≡ taken
    idem = omega arith

    removed :
        let (r, m') = Access.read m mb buf taken i in
        (r ≡ pos taken)
        × (queue m mb i ≡ items m' buf (queue_size m mb i) taken ++ queue m' mb i)
        × IsOpen m' mb i
    removed =
        let p = read_removes m mb i c.region_open buf taken buf_ok (rw idem apart) in
        (
          p.0 ∙ ap pos idem,
          p.1
              ∙ ap
                  (λ (k : ℕ).
                    items (Access.read m mb buf taken i).1 buf (queue_size m mb i) k
                    ++ queue (Access.read m mb buf taken i).1 mb i)
                  idem,
          p.2,
        )

    delivered :
        deliver mb i size buf sz (pos 0, pos there, m)
        ≡ (pos (taken * size), (Access.read m mb buf taken i).1)
    unfolding deliver
    delivered =
        let number : uint32 (pos taken) ≡ taken = omega (arith, there_small, c.region_open.sane) in
        rw (wanted_lem sz, number, removed.0, bytes_exact) refl
      where
        bytes_exact : bytes_of (pos taken) size ≡ pos (taken * size)
        bytes_exact =
            bytes_of_small taken size (omega (arith, there_small, c.region_open.sane))
              (omega (arith, mul-div-le sz size, mul_mono taken (sz / size) size (omega arith)))

    pub read_timed_runs :
        (ms : ℤ) (wakes : List Wake)
        → bad_timeout ms ≡ false
        → size ≤ sz
        → 0 < there
        → read_timed api m (some h) buf sz ms wakes
          ≡ some (pos (taken * size), (Access.read m mb buf taken i).1)
    unfolding read_timed
    read_timed_runs ms wakes ms_ok one some_there =
        rw (waits, delivered) (ground (arith, c, size_pos))
      where
        waits :
            wait_items m mb i (Access.get_valid_item_num m mb i) wakes ≡ some (pos 0, pos there, m)
        waits =
            rw ((counters_exact m mb i c.region_open).0)
              (wait_items_ready m mb i there wakes some_there)

    -- Where items are there already, `rtss_mb_read_timed` with a buffer for at least one item does
    -- not wait: it takes the oldest items off the queue, as many as there are and as the buffer
    -- has room for, in order, returns the number of their bytes, and keeps the sub-region open.
    pub read_timed_takes :
        (ms : ℤ) (wakes : List Wake)
        → bad_timeout ms ≡ false
        → size ≤ sz
        → 0 < there
        → let k = min there (sz / size) in
          (m' : Memory) × (read_timed api m (some h) buf sz ms wakes ≡ some (pos (k * size), m'))
          × (queue m mb i ≡ items m' buf size k ++ queue m' mb i)
          × IsOpen m' mb i
    read_timed_takes ms wakes ms_ok one some_there = (
      (Access.read m mb buf taken i).1,
      read_timed_runs ms wakes ms_ok one some_there,
      removed.1
          ∙ ap
              (λ s.
                items (Access.read m mb buf taken i).1 buf s taken
                ++ queue (Access.read m mb buf taken i).1 mb i)
              (sym c.size_same),
      removed.2,
    )

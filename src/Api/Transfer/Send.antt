-- ===== src/Api/Transfer/Send.antt =====
-- What `rtss_mb_write` and `rtss_mb_write_batch` send.
use native.Mathlib.Nat.{mod-eq_of_lt, div-le_of_le-mul, mul-div-le, le-div_iff_mul-le}
use rtss_mailbox_umd.Base.{
  ℕ, ◌+◌, ◌*◌, ◌/◌, ◌^◌, ◌≤◌, ◌<◌, ◌≡◌, ◌≢◌, refl, sym, ap, ◌∙◌, arith, false, u64, some, ◌++◌, [],
  ◌∷◌, length,
}
use rtss_mailbox_umd.Base.Int.{pos, int32, uint32, uint32-int32, is_neg}
use rtss_mailbox_umd.Memory.{Memory}
use rtss_mailbox_umd.Mailbox.Ring.Item.{items, mul_mono}
use rtss_mailbox_umd.Mailbox.Access
use rtss_mailbox_umd.Mailbox.Access.Open.{IsOpen, queue, queue_cap, queue_size, BufferApart}
use rtss_mailbox_umd.Mailbox.Access.Send.{write_appends}
use rtss_mailbox_umd.Mailbox.Access.Counts.{counters_exact, validate_open}
use rtss_mailbox_umd.Api.Handle.{Uapi, Handle, evfdinfo_of, SysRet, send_interrupt, enobufs}
use rtss_mailbox_umd.Api.Transfer.{trigger_ioctl, write_batch, write, bytes_of}

-- A number of bytes that an int can hold is returned as it is.
pub bytes_of_small :
    (k size : ℕ) → k < 2 ^ 32 → k * size < 2 ^ 31 → bytes_of (pos k) size ≡ pos (k * size)
bytes_of_small k size small bytes = rw (mod-eq_of_lt {n = k} {m = 2 ^ 32} small) (ground arith)

-- An open channel that sends, on an open sub-region with the item size of the handle.
pub record CanSend (api : Uapi) (m : Memory) (h : Handle) : Type 0 where
  pub fd_open : is_neg h.fd ≡ false
  pub sends : h.mode ≡ api.mode_tx
  pub size_same : h.subchan_item_size ≡ queue_size m h.p_mb_base_addr h.subregion_index
  pub region_open : IsOpen m h.p_mb_base_addr h.subregion_index

module _ (api : Uapi) (m : Memory) (h : Handle) (c : CanSend api m h) where
  abbrev mb : ℕ
  mb = h.p_mb_base_addr

  abbrev i : ℕ
  i = h.subregion_index

  abbrev size : ℕ
  size = h.subchan_item_size

  abbrev slots : ℕ
  slots = queue_cap m mb i

  -- the number that `LibMB_Get_FreeItemNum` gives
  free : ℕ
  free = (counters_exact m mb i c.region_open).1

  free_got : Access.get_free_item_num m mb i ≡ pos free
  unfolding free
  free_got = (counters_exact m mb i c.region_open).2

  free_sum : free + length (queue m mb i) + 1 ≡ slots
  unfolding free
  free_sum = (counters_exact m mb i c.region_open).3

  bytes_small : slots * size < 2 ^ 32
  bytes_small = rw c.size_same c.region_open.fits.bytes_small

  size_pos : 0 < size
  size_pos = rw c.size_same c.region_open.fits.size_pos

  free_bytes : u64 (uint32 (pos free) * size) ≡ free * size
  free_bytes =
      let few : uint32 (pos free) ≡ free = omega (arith, free_sum, c.region_open.sane) in
      rw few (
        mod-eq_of_lt {n = free * size} {m = 2 ^ 64}
          (omega (arith, bytes_small, mul_mono free slots size (omega (arith, free_sum)))))

  module _ (buf sz : ℕ) (buf_ok : buf ≢ 0) (sz_pos : 0 < sz) where
    -- More bytes than the free items have: nothing is sent, and nothing changes.
    pub write_batch_full :
        slots * size < sz + (length (queue m mb i) + 1) * size
        → write_batch api m (some h) buf sz ≡ (enobufs, m)
    unfolding write_batch
    write_batch_full full = ground (
      arith,
      c,
      size_pos,
      validate_open m mb i c.region_open,
      free_got,
      free_bytes,
      too_many full,
    )
      where
        too_many : slots * size < sz + (length (queue m mb i) + 1) * size → free * size < sz
        too_many full = omega (arith, ap (λ (t : ℕ). t * size) free_sum)

    module _ (room : sz + (length (queue m mb i) + 1) * size ≤ slots * size) where
      sz_fits : sz ≤ free * size
      sz_fits = omega (arith, ap (λ (t : ℕ). t * size) free_sum)

      count_fits : sz / size ≤ free
      count_fits = div-le_of_le-mul size (omega (arith, sz_fits))

      enters :
          let w = Access.write m mb buf (sz / size) i in
          w.0 ≡ pos (sz / size)
          → write_batch api m (some h) buf sz ≡ (bytes_of (pos (sz / size)) size, w.1)
      unfolding write_batch
      enters e = rw same (
          ground (
            arith,
            c,
            size_pos,
            validate_open m mb i c.region_open,
            free_got,
            free_bytes,
            sz_fits,
            e,
          ))
        where
          same : uint32 (int32 (sz / size)) ≡ sz / size
          same = uint32-int32 (sz / size) (omega (arith, count_fits, free_sum, c.region_open.sane))

      -- Whole items, and perhaps a part of one more, that the free items have the bytes for: the
      -- whole items are appended to the queue, and the number of their bytes is returned.
      pub write_batch_sends :
          sz < 2 ^ 31
          → BufferApart m mb i buf (sz / size)
          → let (r, m') = write_batch api m (some h) buf sz in
            (r ≡ pos (sz / size * size))
            × (queue m' mb i ≡ queue m mb i ++ items m buf size (sz / size))
            × IsOpen m' mb i
      write_batch_sends small apart =
          let sent =
            write_appends m mb i c.region_open buf (sz / size) buf_ok
              (omega (arith, count_fits, free_sum)) apart in
          rw (enters sent.0, bytes_exact)
            (
              refl,
              sent.1 ∙ ap (λ s. queue m mb i ++ items m buf s (sz / size)) (sym c.size_same),
              sent.2,
            )
        where
          bytes_exact : bytes_of (pos (sz / size)) size ≡ pos (sz / size * size)
          bytes_exact =
              bytes_of_small (sz / size) size
                (omega (arith, count_fits, free_sum, c.region_open.sane))
                (omega (arith, mul-div-le sz size))

      -- `rtss_mb_write` of at least one item: the same, and then one interrupt, where the kernel
      -- accepts it.
      pub write_interrupts :
          (sys : SysRet)
          → sys.ret ≡ pos 0
          → sz < 2 ^ 31
          → size ≤ sz
          → BufferApart m mb i buf (sz / size)
          → write api m (some h) buf sz sys ≡ (
            pos (sz / size * size),
            (write_batch api m (some h) buf sz).1,
            send_interrupt (evfdinfo_of h api.mode_tx (pos 0)) ∷ [],
          )
      unfolding write trigger_ioctl
      write_interrupts sys sys_ok small one apart =
          let some_item : 1 ≤ sz / size =
            (le-div_iff_mul-le {k = size} {x = 1} {y = sz} size_pos).1 (omega (arith, one)) in
          ground (
            arith,
            sys_ok,
            (write_batch_sends small apart).0,
            mul_mono 1 (sz / size) size some_item,
            size_pos,
          )

-- ===== src/Api/Transfer.antt =====
-- Sending and receiving: `rtss_mb_write_batch`, `rtss_mb_write`, `rtss_mb_send_trigger` and
-- `rtss_mb_read_timed` of middleware/mailbox/src/rtss_mailbox.c. A handle is an `Option`, `none`
-- for NULL; logging is left out.
pub mod Send
pub mod Receive
pub mod Return
use rtss_mailbox_umd.Base.{
  ℕ, ◌+◌, ◌*◌, ◌/◌, Bool, true, false, not, ◌&&◌, ◌||◌, ltb, ◌==◌, if◌then◌else◌, u64, Option, none,
  some, List, [], ◌∷◌,
}
use rtss_mailbox_umd.Base.Int.{ℤ, pos, negsuc, neg, int32, uint32, is_neg, is_zero}
use rtss_mailbox_umd.Memory.{Memory}
use rtss_mailbox_umd.Mailbox.Access
use rtss_mailbox_umd.Api.Handle.{
  Uapi, Handle, Evfdinfo, evfdinfo_of, SysRet, Act, send_interrupt, eperm, eintr, eio, ebadf,
  einval, emsgsize, econnreset, enobufs, etimedout,
}

-- (int)((uint64_t)(uint32_t)items * item_size)
abbrev pub bytes_of : ℤ → ℕ → ℤ
bytes_of items item_size = int32 (u64 (uint32 items * item_size))

module _ (api : Uapi) where
  -- `rtssmb_trigger_ioctl`; `sys` is what the kernel returns.
  unfoldable pub trigger_ioctl : Handle → SysRet → ℤ × List Act
  trigger_ioctl handle sys = (
    if is_zero sys.ret then pos 0 else neg sys.errno,
    send_interrupt (evfdinfo_of handle api.mode_tx (pos 0)) ∷ [],
  )

  pub send_trigger : Option Handle → SysRet → ℤ × List Act
  unfolding trigger_ioctl
  send_trigger none sys = (einval, [])
  send_trigger (some handle) sys =
      if is_neg handle.fd
      then (ebadf, [])
      else if not (handle.mode == api.mode_tx)
      then (eperm, [])
      else trigger_ioctl handle sys

  unfoldable pub write_batch : Memory → Option Handle → ℕ → ℕ → ℤ × Memory
  write_batch m none buf sz = (einval, m)
  write_batch m (some handle) buf sz =
      let mb = handle.p_mb_base_addr in
      let free_items = Access.get_free_item_num m mb handle.subregion_index in
      let items = int32 (sz / handle.subchan_item_size) in
      let written = Access.write m mb buf (uint32 items) handle.subregion_index in
      if buf == 0
      then (einval, m)
      else if sz == 0
      then (einval, m)
      else if is_neg handle.fd
      then (ebadf, m)
      else if handle.subchan_item_size == 0
      then (ebadf, m)
      else if not (handle.mode == api.mode_tx)
      then (eperm, m)
      else if not (is_zero (Access.validate m mb))
      then (eio, m)
      else if is_neg free_items
      then (eio, m)
      else if ltb (u64 (uint32 free_items * handle.subchan_item_size)) sz
      then (enobufs, m)
      else if is_neg written.0
      then (eio, written.1)
      else (bytes_of written.0 handle.subchan_item_size, written.1)

  unfoldable pub trigger_behind : Option Handle → SysRet → ℤ × Memory → ℤ × Memory × List Act
  trigger_behind none sys (n, m) = (n, m, [])
  trigger_behind (some handle) sys (n, m) =
      let (r, acts) = trigger_ioctl handle sys in
      if is_neg n || is_zero n
      then (n, m, [])
      else if not (is_zero r)
      then (r, m, acts)
      else (n, m, acts)

  -- The interrupt is sent only behind a write of at least one byte.
  unfoldable pub write : Memory → Option Handle → ℕ → ℕ → SysRet → ℤ × Memory × List Act
  unfolding trigger_behind
  write m handle buf sz sys = trigger_behind handle sys (write_batch m handle buf sz)

-- One return of `poll`: its result and errno, the bits of `revents` that the code tests, the
-- errno of a failing `eventfd_read`, and the memory that the thread then finds.
pub record Wake : Type 0 where
  pub ret : ℤ
  pub errno : ℕ
  pub pollin : Bool
  pub pollbad : Bool
  pub read_errno : Option ℕ
  pub mem : Memory

abbrev pub is_minus_one : ℤ → Bool
is_minus_one (pos n) = false
is_minus_one (negsuc n) = n == 0

-- Whether the round goes back to the ring, or the code to return.
unfoldable pub wake_error : Wake → Option ℤ
wake_error w =
    let failed : Option ℤ = elim w.read_errno [ none ↦ none | some e ↦ some (neg e) ] in
    if is_minus_one w.ret
    then (if w.errno == 4 then some eintr else some (neg w.errno))
    else if is_zero w.ret
    then some etimedout
    else if w.pollin
    then failed
    else if w.pollbad
    then some econnreset
    else none

-- The loop over the returns of `poll`: the number of items and the memory in which it was read,
-- or the code to return. `none` where the thread still waits at the end of the list.
unfoldable pub wait_items : Memory → ℕ → ℕ → ℤ → List Wake → Option (ℤ × ℤ × Memory)
wait_items m mb i items [] =
    if is_zero items then none else some (if is_neg items then eio else pos 0, items, m)
wait_items m mb i items (w ∷ ws) =
    let rest = wait_items w.mem mb i (Access.get_valid_item_num w.mem mb i) ws in
    if not (is_zero items)
    then some (if is_neg items then eio else pos 0, items, m)
    else elim (wake_error w) [ none ↦ rest | some e ↦ some (e, pos 0, w.mem) ]

-- Behind the loop: the read of as many items as the buffer has room for.
unfoldable pub deliver : ℕ → ℕ → ℕ → ℕ → ℕ → ℤ × ℤ × Memory → ℤ × Memory
deliver mb i item_size buf sz (code, items, m) =
    let wanted =
      if ltb sz (u64 (uint32 items * item_size)) then int32 (sz / item_size) else items in
    let got = Access.read m mb buf (uint32 wanted) i in
    if is_neg code
    then (code, m)
    else if is_neg got.0
    then (eio, got.1)
    else (bytes_of got.0 item_size, got.1)

-- ms < -1
abbrev pub bad_timeout : ℤ → Bool
bad_timeout (pos n) = false
bad_timeout (negsuc n) = ltb 0 n

abbrev pub map_option {ℓ κ} : {A : Type ℓ} {B : Type κ} → (A → B) → Option A → Option B
map_option f none = none
map_option f (some a) = some (f a)

module _ (api : Uapi) where
  unfoldable pub read_timed : Memory → Option Handle → ℕ → ℕ → ℤ → List Wake → Option (ℤ × Memory)
  unfolding deliver wait_items
  read_timed m none buf sz ms wakes = some (einval, m)
  read_timed m (some handle) buf sz ms wakes =
      let mb = handle.p_mb_base_addr in
      let i = handle.subregion_index in
      let waited = wait_items m mb i (Access.get_valid_item_num m mb i) wakes in
      if buf == 0
      then some (einval, m)
      else if sz == 0
      then some (einval, m)
      else if bad_timeout ms
      then some (einval, m)
      else if is_neg handle.fd
      then some (ebadf, m)
      else if not (handle.mode == api.mode_rx)
      then some (eperm, m)
      else if handle.subchan_item_size == 0
      then some (ebadf, m)
      else if ltb sz handle.subchan_item_size
      then some (emsgsize, m)
      else map_option (deliver mb i handle.subchan_item_size buf sz) waited

  -- `rtss_mb_read` waits without limit.
  unfoldable pub read : Memory → Option Handle → ℕ → ℕ → List Wake → Option (ℤ × Memory)
  read m handle buf sz wakes = read_timed m handle buf sz (negsuc 0) wakes

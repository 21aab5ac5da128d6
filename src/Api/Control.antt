-- ===== src/Api/Control.antt =====
-- `rtss_mb_get_fd`, `rtss_mb_get_chan_stat`, `rtss_mb_chan_reset` and `rtss_mb_close` of
-- middleware/mailbox/src/rtss_mailbox.c.
use rtss_mailbox_umd.Base.{
  ℕ, ◌*◌, Bool, not, ◌==◌, if◌then◌else◌, u64, Option, none, some, List, [], ◌∷◌, ◌++◌,
}
use rtss_mailbox_umd.Base.Int.{ℤ, pos, neg, int32, uint32, is_neg, is_zero}
use rtss_mailbox_umd.Memory.{Memory, get_reg}
use rtss_mailbox_umd.Mailbox.Layout.SubRgnDesc
use rtss_mailbox_umd.Mailbox.Access
use rtss_mailbox_umd.Api.Handle.{
  Uapi, Handle, evfdinfo_of, SysRet, Act, dis_interrupt, close_fd, free_handle, eperm, eio, ebadf,
  einval,
}

module _ (api : Uapi) where
  pub get_fd : Option Handle → ℤ
  get_fd none = einval
  get_fd (some handle) =
      if is_neg handle.fd
      then ebadf
      else if not (handle.mode == api.mode_rx)
      then eperm
      else handle.event_fd

-- struct rtss_mb_chan_info
pub record ChanStat : Type 0 where
  pub isz : ℤ
  pub tsz : ℤ
  pub icnt : ℤ
  pub evcnt : ℤ

module _ (api : Uapi) where
  -- `info` is whether the caller's pointer is not NULL, and `desc` where the local ChanInfo stands.
  pub get_chan_stat : Memory → Option Handle → Bool → ℕ → ℤ × Option ChanStat × Memory
  get_chan_stat m none info desc = (einval, none, m)
  get_chan_stat m (some handle) info desc =
      let mb = handle.p_mb_base_addr in
      let i = handle.subregion_index in
      let size = handle.subchan_item_size in
      let got = Access.get_chan_info m mb i desc in
      let item_cnt =
        if handle.mode == api.mode_tx
        then Access.get_free_item_num got.1 mb i
        else Access.get_valid_item_num got.1 mb i in
      if not info
      then (einval, none, m)
      else if is_neg handle.fd
      then (ebadf, none, m)
      else if size == 0
      then (ebadf, none, m)
      else if not (is_zero (Access.validate m mb))
      then (eio, none, m)
      else if not (is_zero got.0)
      then (eio, none, got.1)
      else if is_neg item_cnt
      then (eio, none, got.1)
      else (
        pos 0,
        some (record {
          isz = int32 size;
          tsz = int32 (u64 (get_reg got.1 (SubRgnDesc.max_item_num desc) * size));
          icnt = int32 (u64 (uint32 item_cnt * size));
          evcnt = pos 0;
        }),
        got.1,
      )

pub chan_reset : Memory → Option Handle → ℤ × Memory
chan_reset m none = (einval, m)
chan_reset m (some handle) =
    let mb = handle.p_mb_base_addr in
    let done = Access.chan_reset m mb handle.subregion_index in
    if is_neg handle.fd
    then (ebadf, m)
    else if not (is_zero (Access.validate m mb))
    then (eio, m)
    else if not (is_zero done.0)
    then (eio, done.1)
    else (pos 0, done.1)

-- What `rtss_mb_close` does for a receiving channel before it closes the device.
close_rx : Uapi → Handle → SysRet → ℤ × List Act
close_rx api handle sys =
    let event_closed : List Act =
      if is_neg handle.event_fd then [] else close_fd handle.event_fd ∷ [] in
    (
      if is_zero sys.ret then pos 0 else neg sys.errno,
      dis_interrupt (evfdinfo_of handle api.mode_rx (pos 0)) ∷ event_closed,
    )

module _ (api : Uapi) where
  -- The mapping is left to the end of the process, as the comment there says.
  unfoldable pub close : Option Handle → SysRet → ℤ × List Act
  unfolding close_rx
  close none sys = (einval, [])
  close (some handle) sys =
      let (r, acts) : ℤ × List Act =
        if handle.mode == api.mode_rx then close_rx api handle sys else (pos 0, []) in
      if is_neg handle.fd then (ebadf, []) else (r, acts ++ (close_fd handle.fd ∷ free_handle ∷ []))

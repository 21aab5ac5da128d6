-- ===== src/Api/Open.antt =====
-- `rtssmb_getdevctx` and `rtss_mb_open` of middleware/mailbox/src/rtss_mailbox.c. What the kernel
-- and `calloc` return is given beforehand; what is asked of them is the list of acts.
pub mod Release
use rtss_mailbox_umd.Base.{
  ℕ, zero, suc, ◌+◌, ◌-◌, Bool, true, false, not, ◌&&◌, ◌||◌, ltb, leb, ◌==◌, if◌then◌else◌, Option,
  none, some, List, [], ◌∷◌, ◌++◌, length, get_or, take,
}
use rtss_mailbox_umd.Base.Int.{ℤ, pos, negsuc, neg, is_neg, is_zero}
use rtss_mailbox_umd.Memory.{Memory, get_reg}
use rtss_mailbox_umd.Mailbox.Layout.{mb_name_sz}
use rtss_mailbox_umd.Mailbox.Layout.MbDesc
use rtss_mailbox_umd.Mailbox.Layout.SubRgnDesc
use rtss_mailbox_umd.Mailbox.Access
use rtss_mailbox_umd.Api.Handle.{
  Uapi, Handle, fresh_handle, evfdinfo_of, SysRet, Act, calloc_handle, free_handle, open_dev,
  close_fd, open_event_fd, map_region, unmap_region, get_mb_region, set_event_fd, enoent, eio,
  eagain, enomem, einval, enametoolong,
}

-- strncmp(dev, name, n) == 0 from character `k` on; behind its end a string has the NUL
pub same_name : ℕ → ℕ → List ℕ → Memory → ℕ → Bool
same_name zero k dev m name = true
same_name (suc n) k dev m name =
    if not (get_or dev k 0 == m (name + k))
    then false
    else if get_or dev k 0 == 0
    then true
    else same_name n (k + 1) dev m name

-- The stores into the handle, from the structure at `desc`.
abbrev pub fill_handle : Memory → ℕ → ℕ → ℕ → List ℕ → Handle → Handle
fill_handle m mb desc i dev h = record h {
  dev = dev;
  p_mb_base_addr = mb;
  subregion_index = i;
  client_id = get_reg m (SubRgnDesc.receiver desc);
  sender = get_reg m (SubRgnDesc.sender desc);
  prot = get_reg m (SubRgnDesc.prot desc);
  signal_id = get_reg m (SubRgnDesc.sig desc);
  mode = get_reg m (SubRgnDesc.mode desc);
  priority = get_reg m (SubRgnDesc.prio desc);
  subchan_item_size = get_reg m (SubRgnDesc.max_item_size desc);
}

-- The loop of `rtssmb_getdevctx`, with `left` rounds from sub-region `i` on. A device name that
-- does not fit is copied in part.
pub find_channel : ℕ → ℕ → Memory → ℕ → ℕ → List ℕ → Handle → ℤ × Handle × Memory
find_channel zero i m mb desc dev h = (enoent, h, m)
find_channel (suc left) i m mb desc dev h =
    let (r, m') = Access.get_chan_info m mb i desc in
    let rest = find_channel left (i + 1) m' mb desc dev h in
    if not (is_zero r)
    then (eio, h, m')
    else if same_name mb_name_sz 0 dev m' desc
    then if leb mb_name_sz (length dev)
      then (enametoolong, record h { dev = take (mb_name_sz - 1) dev }, m')
      else (pos 0, fill_handle m' mb desc i dev h, m')
    else rest

-- The loop stores to the structure at `desc` only, so the number of sub-regions is read once.
pub getdevctx : Memory → ℕ → ℕ → List ℕ → Handle → ℤ × Handle × Memory
unfolding find_channel
getdevctx m mb desc dev h =
    if mb == 0
    then (einval, h, m)
    else find_channel (get_reg m (MbDesc.num_of_sub_region mb)) 0 m mb desc dev h

-- What the calls made by `rtss_mb_open` return. `mmap_addr` is `none` for MAP_FAILED.
pub record OpenEnv : Type 0 where
  pub calloc_ok : Bool
  pub dev_open : SysRet
  pub region : SysRet
  pub region_size : ℕ
  pub mmap_addr : Option ℕ
  pub mmap_errno : ℕ
  pub event_open : SysRet
  pub event_set : SysRet
  -- where the local SubRegionDesc stands
  pub desc : ℕ

-- The code, the handle stored through the caller's pointer, and the acts.
pub record Opened : Type 0 where
  pub code : ℤ
  pub handle : Option Handle
  pub acts : List Act

abbrev pub failed : ℤ → List Act → Opened
failed code acts = record { code = code; handle = none; acts = acts }

abbrev pub is_fd_error : ℤ → Bool
is_fd_error (pos n) = false
is_fd_error (negsuc n) = n == 0

module _ (api : Uapi) (env : OpenEnv) where
  open env use {
    calloc_ok, dev_open as device, region, region_size, mmap_errno, event_open, event_set, desc,
  }

  abbrev nfd : ℤ
  nfd = device.ret

  -- From the handle that describes the channel on: the event descriptor of a receiving channel.
  arm : Memory → ℕ → List Act → Handle → Opened
  arm m mb acts h =
      let h_rx = record h { event_fd = event_open.ret } in
      let undo : List Act = unmap_region mb region_size ∷ close_fd nfd ∷ free_handle ∷ [] in
      let acts_event = acts ++ (open_event_fd event_open.ret ∷ []) in
      let acts_set = acts_event ++ (set_event_fd (evfdinfo_of h api.mode_rx event_open.ret) ∷ []) in
      if h.mode == api.mode_rx
      then if is_fd_error event_open.ret
        then failed (neg event_open.errno) (acts ++ undo)
        else if not (is_zero event_set.ret)
        then failed (neg event_set.errno) (acts_set ++ (close_fd event_open.ret ∷ undo))
        else record { code = pos 0; handle = some (record h_rx { fd = nfd }); acts = acts_set }
      else if h.mode == api.mode_tx
      then record {
        code = pos 0;
        handle = some (record h { event_fd = negsuc 0; fd = nfd });
        acts = acts;
      }
      else failed eio (acts ++ undo)

  -- From the mapped mailbox on.
  attach : Memory → ℕ → List Act → List ℕ → Opened
  unfolding arm
  attach m mb acts dev =
      let undo : List Act = unmap_region mb region_size ∷ close_fd nfd ∷ free_handle ∷ [] in
      let (r, h, m') = getdevctx m mb desc dev fresh_handle in
      if not (is_zero (Access.validate m mb))
      then failed eagain (acts ++ undo)
      else if not (is_zero r)
      then failed r (acts ++ undo)
      else arm m' mb acts (record h { mb_size = region_size })

  -- From the open device on.
  map_device : Memory → List ℕ → Opened
  unfolding attach
  map_device m dev =
      let acts : List Act = calloc_handle ∷ open_dev nfd ∷ get_mb_region ∷ [] in
      let undo : List Act = close_fd nfd ∷ free_handle ∷ [] in
      if not (is_zero region.ret)
      then failed (neg region.errno) (acts ++ undo)
      else if region_size == 0
      then failed eio (acts ++ undo)
      else elim env.mmap_addr [
        | none ↦ failed (neg mmap_errno) (acts ++ undo)
        | some mb ↦
            if mb == 0
            then failed (neg mmap_errno) (acts ++ undo)
            else attach m mb (acts ++ (map_region mb region_size ∷ [])) dev
      ]

  -- `m` is the memory with the region mapped, and `wanted` whether the caller's pointer to a
  -- handle is not NULL.
  pub open_mailbox : Memory → Bool → Option (List ℕ) → Opened
  unfolding map_device
  open_mailbox m false dev = failed einval []
  open_mailbox m true none = failed einval []
  open_mailbox m true (some dev) =
      if not calloc_ok
      then failed enomem []
      else if is_fd_error device.ret
      then failed (neg device.errno) (calloc_handle ∷ free_handle ∷ [])
      else map_device m dev

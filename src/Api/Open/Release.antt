-- ===== src/Api/Open/Release.antt =====
-- The resources that the API acquires and releases, replayed from its acts.
use rtss_mailbox_umd.Base.{
  ℕ, zero, suc, ◌+◌, ◌≡◌, refl, arith, Bool, true, false, ◌&&◌, ◌==◌, if◌then◌else◌, Option, none,
  some, List, [], ◌∷◌, Option-cases, inl, inr,
}
use rtss_mailbox_umd.Base.Int.{ℤ, pos, negsuc, is_neg, is_zero}
use rtss_mailbox_umd.Memory.{Memory, get_reg}
use rtss_mailbox_umd.Mailbox.Access
use rtss_mailbox_umd.Mailbox.Layout.MbDesc
use rtss_mailbox_umd.Api.Handle.{
  Uapi, Handle, SysRet, Act, calloc_handle, free_handle, open_dev, close_fd, open_event_fd,
  map_region, unmap_region, get_mb_region, set_event_fd, send_interrupt, dis_interrupt,
  fresh_handle,
}
use rtss_mailbox_umd.Api.Open.{OpenEnv, open_mailbox, getdevctx, find_channel}
use rtss_mailbox_umd.Api.Control.{close}

pub data Resource : Type 0 where
  heap_handle : Resource
  file : ℤ → Resource
  mapping : ℕ → ℕ → Resource

abbrev int_eq : ℤ → ℤ → Bool
int_eq (pos a) (pos b) = a == b
int_eq (pos a) (negsuc b) = false
int_eq (negsuc a) (pos b) = false
int_eq (negsuc a) (negsuc b) = a == b

-- What is held behind the acts, the latest first; `none` where a release does not fit.
abbrev pub replay : List Resource → List Act → Option (List Resource)
replay held [] = some held
replay held (calloc_handle ∷ acts) = replay (heap_handle ∷ held) acts
replay held (open_dev fd ∷ acts) = replay (file fd ∷ held) acts
replay held (open_event_fd fd ∷ acts) = replay (file fd ∷ held) acts
replay held (map_region a n ∷ acts) = replay (mapping a n ∷ held) acts
replay (heap_handle ∷ held) (free_handle ∷ acts) = replay held acts
replay (file fd ∷ held) (close_fd fd' ∷ acts) = if int_eq fd fd' then replay held acts else none
replay (mapping a n ∷ held) (unmap_region a' n' ∷ acts) =
    if a == a' && n == n' then replay held acts else none
replay held (get_mb_region ∷ acts) = replay held acts
replay held (set_event_fd e ∷ acts) = replay held acts
replay held (send_interrupt e ∷ acts) = replay held acts
replay held (dis_interrupt e ∷ acts) = replay held acts
replay held (a ∷ acts) = none

-- What an open handle holds.
abbrev pub held_by : Uapi → Handle → List Resource
held_by api h =
    let base : List Resource = mapping h.p_mb_base_addr h.mb_size ∷ file h.fd ∷ heap_handle ∷ [] in
    if h.mode == api.mode_rx then file h.event_fd ∷ base else base

-- The same without the mapping.
abbrev pub but_mapping : Uapi → Handle → List Resource
but_mapping api h =
    let base : List Resource = file h.fd ∷ heap_handle ∷ [] in
    if h.mode == api.mode_rx then file h.event_fd ∷ base else base

find_channel-base :
    (left i : ℕ) (m : Memory) (mb desc : ℕ) (dev : List ℕ) (h : Handle)
    → (find_channel left i m mb desc dev h).0 ≡ pos 0
    → (find_channel left i m mb desc dev h).1.p_mb_base_addr ≡ mb
unfolding find_channel
find_channel-base zero i m mb desc dev h e = ground arith
find_channel-base (suc left) i m mb desc dev h e =
    let m' = (Access.get_chan_info m mb i desc).1 in
    ground (arith, find_channel-base left (i + 1) m' mb desc dev h)

getdevctx-base :
    (m : Memory) (mb desc : ℕ) (dev : List ℕ) (h : Handle)
    → (getdevctx m mb desc dev h).0 ≡ pos 0
    → (getdevctx m mb desc dev h).1.p_mb_base_addr ≡ mb
unfolding getdevctx
getdevctx-base m mb desc dev h e =
    ground (arith, find_channel-base (get_reg m (MbDesc.num_of_sub_region mb)) 0 m mb desc dev h)

is_zero→eq : (z : ℤ) → is_zero z ≡ true → z ≡ pos 0
is_zero→eq z h = ground arith

-- The acts fit what `rtss_mb_open` gives: without a handle nothing is held, with one the code is
-- 0 and what the handle holds is held.
abbrev pub Accounts : Uapi → Option Handle → ℤ → List Act → Type 0
Accounts api none code acts = replay [] acts ≡ some []
Accounts api (some h) code acts = (code ≡ pos 0) × (replay [] acts ≡ some (held_by api h))

-- Whatever the kernel returns, `rtss_mb_open` either gives no handle, and has released all that it
-- acquired, in the reverse order; or it returns 0 and a handle, and holds the memory of the handle,
-- the device, the mapping and, for a receiving channel, the event descriptor, and nothing else.
pub open_mailbox-Accounts :
    (api : Uapi) (env : OpenEnv) (m : Memory) (wanted : Bool) (dev : Option (List ℕ))
    → let o = open_mailbox api env m wanted dev in Accounts api o.handle o.code o.acts
unfolding open_mailbox
open_mailbox-Accounts api env m false dev = refl
open_mailbox-Accounts api env m true none = refl
open_mailbox-Accounts api env m true (some dev) = elim (Option-cases env.mmap_addr) [
  | inl e ↦ ground arith
  | inr (mb, e) ↦ ground (
    arith,
    getdevctx-base m mb env.desc dev fresh_handle,
    is_zero→eq (getdevctx m mb env.desc dev fresh_handle).0,
  )
]

-- `rtss_mb_close` on an open handle, whose event descriptor is open if it receives, releases what
-- the handle holds, in the reverse order of `rtss_mb_open`, all but the mapping.
pub close_keeps_mapping :
    (api : Uapi) (h : Handle) (sys : SysRet)
    → is_neg h.fd ≡ false
    → (h.mode ≡ api.mode_rx → is_neg h.event_fd ≡ false)
    → (replay (but_mapping api h) (close api (some h) sys).1 ≡ some [])
unfolding close
close_keeps_mapping api h sys p q = ground arith

-- ===== src/Update/Ota/Shared.antt =====
-- The OTA buffer over any sequence of calls: how many clients hold it, and what is mapped.
use rtss_mailbox_umd.Base.{
  ℕ, zero, suc, ◌+◌, ◌-◌, ◌==◌, ◌≡◌, ◌≢◌, ◌↔◌, refl, Bool, if◌then◌else◌, List, [], ◌∷◌, Option,
  none, some, arith,
}
use rtss_mailbox_umd.Update.Ota.{
  OtaContext, OtaMmapData, Device, OtaAct, opens, closes, maps, unmaps, rtss_ota_ctx,
  get_ota_buffer, release_ota_buffer, map_ota_buffer_locked,
}

-- A client's call: to get the buffer, on a device, or to release it.
pub data OtaCall : Type 0 where
  gets : (dev : Device) → OtaCall
  releases : OtaCall

-- The descriptors that are open, counted, and the mapping, if there is one.
pub record Process : Type 0 where
  pub fds : ℕ
  pub mapping : Option (ℕ × ℕ)

abbrev pub apply : OtaAct → Process → Process
apply (opens fd) p = record p { fds = p.fds + 1 }
apply (closes fd) p = record p { fds = p.fds - 1 }
apply (maps addr size) p = record p { mapping = some (addr, size) }
apply (unmaps addr size) p = record p { mapping = none }

abbrev pub replay : List OtaAct → Process → Process
replay [] p = p
replay (a ∷ acts) p = replay acts (apply a p)

-- The context, the process and the number of clients that hold the buffer.
pub record World : Type 0 where
  pub ctx : OtaContext
  pub process : Process
  pub holders : ℕ

-- A client gets the buffer where the call returns 0, and one fewer holds it after a release.
abbrev pub step : OtaMmapData → OtaCall → World → World
step client (gets dev) w =
    let out = get_ota_buffer dev w.ctx client in
    record {
      ctx = out.ctx;
      process = replay out.acts w.process;
      holders = if out.ret == 0 then w.holders + 1 else w.holders;
    }
step client releases w =
    let (ret, ctx, client', acts) = release_ota_buffer w.ctx (some client) in
    record { ctx = ctx; process = replay acts w.process; holders = w.holders - 1 }

abbrev pub run : OtaMmapData → List OtaCall → World → World
run client [] w = w
run client (c ∷ cs) w = run client cs (step client c w)

abbrev pub idle : World
idle = record { ctx = rtss_ota_ctx; process = record { fds = 0; mapping = none }; holders = 0 }

-- No mapping is made at the address NULL.
abbrev pub NeverNull : List OtaCall → Type 0
NeverNull [] = ◌≡◌ {A = ℕ} 0 0
NeverNull (gets dev ∷ cs) = (dev.map_addr ≢ some 0) × NeverNull cs
NeverNull (releases ∷ cs) = NeverNull cs

-- The count is the number of clients that hold the buffer, no descriptor stays open, and the
-- buffer is mapped exactly while someone holds it, at the address and size of the context.
unfoldable pub IsShared : World → Type 0
IsShared w =
    (w.ctx.refcount ≡ w.holders)
    × (w.process.fds ≡ 0)
    × ((w.ctx.base_addr ≡ 0) ↔ (w.holders ≡ 0))
    × (w.process.mapping ≡ (if w.holders == 0 then none else some (w.ctx.base_addr, w.ctx.size)))

get-IsShared :
    (client : OtaMmapData) (fd : Option ℕ) (fails : Bool) (addr size : ℕ) (at : Option ℕ)
    → (w : World) → at ≢ some 0
    → IsShared w
    → IsShared (
        step client
          (gets (record {
            opened_fd = fd;
            region_fails = fails;
            region_addr = addr;
            region_size = size;
            map_addr = at;
          }))
          w)
unfolding get_ota_buffer map_ota_buffer_locked IsShared
get-IsShared client none fails addr size at w nn h = ground arith
get-IsShared client (some fd) fails addr size none w nn h = ground arith
get-IsShared client (some fd) fails addr size (some zero) w nn h = absurd (nn refl)
get-IsShared client (some fd) fails addr size (some (suc a)) w nn h = ground arith

step-IsShared :
    (client : OtaMmapData) (c : OtaCall) (w : World)
    → NeverNull (c ∷ [])
    → IsShared w
    → IsShared (step client c w)
unfolding get_ota_buffer release_ota_buffer IsShared
step-IsShared client (gets dev) w (nn, z) h =
    get-IsShared client dev.opened_fd dev.region_fails dev.region_addr dev.region_size dev.map_addr
      w nn h
step-IsShared client releases w nn h = ground arith

run-IsShared :
    (client : OtaMmapData) (cs : List OtaCall) (w : World)
    → NeverNull cs
    → IsShared w
    → IsShared (run client cs w)
run-IsShared client [] w nn h = h
run-IsShared client (gets dev ∷ cs) w (p, nn) h =
    run-IsShared client cs (step client (gets dev) w) nn
      (step-IsShared client (gets dev) w (p, refl) h)
run-IsShared client (releases ∷ cs) w nn h =
    run-IsShared client cs (step client releases w) nn (step-IsShared client releases w refl h)

-- Over any sequence of calls from the start, on devices that make no mapping at NULL, the count is
-- the number of clients that hold the buffer, no descriptor stays open, and the buffer is mapped
-- exactly while someone holds it, at the address and size of the context.
pub ota_buffer-IsShared :
    (client : OtaMmapData) (cs : List OtaCall) → NeverNull cs → IsShared (run client cs idle)
ota_buffer-IsShared client cs nn = run-IsShared client cs idle nn idle_shared
  where
    idle_shared : IsShared idle
    idle_shared = unfold IsShared in (refl, refl, ((λ p. refl), (λ p. refl)), refl)

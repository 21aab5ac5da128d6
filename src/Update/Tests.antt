-- ===== src/Update/Tests.antt =====
-- Runs of the theorems of the update library.
use rtss_mailbox_umd.Base.{◌+◌, ◌≢◌, refl, arith, false, some, List, [], ◌∷◌}
use rtss_mailbox_umd.Update.Crc.{Buffer}
use rtss_mailbox_umd.Update.Ota.{OtaMmapData, Device}
use rtss_mailbox_umd.Update.Ota.Shared.{
  OtaCall, gets, releases, run, idle, IsShared, ota_buffer-IsShared,
}

abbrev digits : Buffer
digits k = k + 49

abbrev demo_client : OtaMmapData
demo_client = record { p_ota_base_addr = 0; s_va = 0; n_sizeof_buffer = 0 }

abbrev demo_device : Device
demo_device = record {
  opened_fd = some 3;
  region_fails = false;
  region_addr = 4096;
  region_size = 65536;
  map_addr = some 8192;
}

-- two clients share the buffer, both release it, and a third one gets it anew
abbrev demo_calls : List OtaCall
demo_calls = gets demo_device ∷ gets demo_device ∷ releases ∷ releases ∷ gets demo_device ∷ []

not_null : demo_device.map_addr ≢ some 0
not_null e = absurd (ground arith)

ota_buffer-IsShared_example : IsShared (run demo_client demo_calls idle)
ota_buffer-IsShared_example =
    ota_buffer-IsShared demo_client demo_calls (not_null, (not_null, (not_null, refl)))

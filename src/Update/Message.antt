-- ===== src/Update/Message.antt =====
-- The messages of apps/rtss-updater/lib/rtss_update: a message is 72 bytes of memory, five words of
-- header and the 52 bytes of a packed union; how it is laid out, sent and received.
pub mod Compose
pub mod Sealed
use rtss_mailbox_umd.Base.{
  ℕ, zero, suc, ◌+◌, ◌-◌, ◌*◌, ◌%◌, ◌≤◌, Bool, ◌&&◌, ◌||◌, not, ltb, leb, ◌==◌, if◌then◌else◌,
  Option, none, some, List, [], ◌∷◌,
}
use rtss_mailbox_umd.Base.Int.{ℤ, pos, negsuc, uint32, is_neg, is_zero}
use rtss_mailbox_umd.Memory.{Memory, get_reg, set_reg}
use rtss_mailbox_umd.Api.Handle.{Uapi, Handle, SysRet, Act}
use rtss_mailbox_umd.Api.Transfer
use rtss_mailbox_umd.Api.Transfer.{Wake}
use rtss_mailbox_umd.Update.Crc.{e_ok, e_err, calculate_crc32}

-- sizeof(rtss_upd_msg_header_t)
abbrev pub msg_size : ℕ
msg_size = 72

-- RTSS_UPD_E_PTR
abbrev pub e_ptr : ℕ
e_ptr = 4

abbrev pub md2rtss : ℕ
md2rtss = 0

abbrev pub rtss2md : ℕ
rtss2md = 1

module _ (msg : ℕ) where
  abbrev pub header_crc : ℕ
  header_crc = msg

  abbrev pub header_size : ℕ
  header_size = msg + 4

  abbrev pub msg_id : ℕ
  msg_id = msg + 8

  abbrev pub direction : ℕ
  direction = msg + 12

  abbrev pub status : ℕ
  status = msg + 16

  -- the union
  abbrev pub body : ℕ
  body = msg + 20

-- `memset(a, val, n)`
unfoldable pub set_run : Memory → ℕ → ℕ → ℕ → Memory
set_run m a val n p = if leb a p && ltb p (a + n) then val else m p

-- Stores of one byte, and of uint32_t one behind the other, as the members of a packed structure
-- stand.
unfoldable pub set_byte : Memory → ℕ → ℕ → Memory
set_byte m a v = set_run m a (v % 256) 1

unfoldable pub set_bytes : Memory → ℕ → List ℕ → Memory
unfolding set_byte
set_bytes m a [] = m
set_bytes m a (v ∷ vs) = set_bytes (set_byte m a v) (a + 1) vs

unfoldable pub set_words : Memory → ℕ → List ℕ → Memory
set_words m a [] = m
set_words m a (v ∷ vs) = set_words (set_reg m a v) (a + 4) vs

-- A message of zeros with its header, as every sender starts.
unfoldable pub start_msg : Memory → ℕ → ℕ → Memory
start_msg m msg id =
    set_words (set_run m msg 0 msg_size) (header_crc msg) (0 ∷ msg_size ∷ id ∷ md2rtss ∷ 0 ∷ [])

abbrev pub store_crc : Memory → ℕ → Option ℕ → Memory
store_crc m a none = m
store_crc m a (some crc) = set_reg m a crc

-- `rtss_upd_calculate_crc32` over `len` bytes of memory from `from` on, with the result at `to`;
-- the code, and the memory behind the call.
unfoldable pub crc_into : Memory → ℕ → ℕ → ℕ → ℕ × Memory
crc_into m to from len =
    let (code, value) =
      calculate_crc32 (to == 0) (if from == 0 then none else some (λ k. m (from + k))) len in
    (code, store_crc m to value)

-- ret <= 0 || (uint32_t)ret != sz
abbrev pub short : ℤ → Bool
short (pos n) = n == 0 || not (uint32 (pos n) == msg_size)
short (negsuc n) = Bool.true

module _ (api : Uapi) where
  unfoldable pub send_msg : Memory → ℕ → Option Handle → SysRet → ℕ × Memory × List Act
  send_msg m msg none sys = (e_err, m, [])
  send_msg m msg (some tx) sys =
      let (ret, m', acts) = Transfer.write api m (some tx) msg msg_size sys in
      if msg == 0 then (e_ptr, m, []) else if short ret then (e_err, m', acts) else (e_ok, m', acts)

  abbrev received : Option (ℤ × Memory) → Option (ℕ × Memory)
  received none = none
  received (some (ret, m')) = some (if short ret then e_err else e_ok, m')

  -- `none` where the thread still waits.
  unfoldable pub read_msg : Memory → ℕ → Option Handle → List Wake → Option (ℕ × Memory)
  read_msg m msg none wakes = some (e_err, m)
  read_msg m msg (some rx) wakes =
      let got = Transfer.read api m (some rx) msg msg_size wakes in
      if msg == 0 then some (e_ptr, m) else received got

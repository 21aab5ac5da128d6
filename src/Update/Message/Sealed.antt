-- ===== src/Update/Message/Sealed.antt =====
-- A request as the RTSS gets it, the bytes of one item of the channel, and the checksum that a sender
-- puts into it.
use rtss_mailbox_umd.Base.{
  ℕ, zero, suc, ◌+◌, ◌*◌, ◌≤◌, ◌<◌, ◌≡◌, ◌≢◌, refl, sym, ap, ◌∙◌, arith, if◌then◌else◌, ltb, dec_lt,
  lt→ltb, le→ltb, some, List, length, get_or, tabulate, length-tabulate, get_or-tabulate, bit_xor,
}
use rtss_mailbox_umd.Memory.{Memory, get_reg, set_reg}
use rtss_mailbox_umd.Memory.Word.{get_reg-set_reg, get_reg-set_reg-Apart, set_reg-Apart}
use rtss_mailbox_umd.Update.Crc.{
  Buffer, crc32_reflect, e_ok, verify_crc32, verify_crc32-calculate_crc32,
}
use rtss_mailbox_umd.Update.Crc.Value.{value, value_bounded, calculated, crc32_loop_ext}
use rtss_mailbox_umd.Update.Message.{msg_size, header_crc, md2rtss, crc_into}
use rtss_mailbox_umd.Update.Message.Compose.{Only, Only-trans, Only-wider, set_reg-Only, Composed}

-- the word at position `k`, its lowest byte first
abbrev pub word : List ℕ → ℕ → ℕ
word l k =
    get_or l k 0
    + 256 * get_or l (k + 1) 0
    + 65536 * get_or l (k + 2) 0
    + 16777216 * get_or l (k + 3) 0

-- the bytes with zeros in place of the checksum
abbrev pub unsealed : List ℕ → Buffer
unsealed l k = if ltb k 4 then 0 else get_or l k 0

-- The bytes are a whole request with this identifier, and the checksum in it is the one of the rest.
pub record IsRequest (l : List ℕ) (id : ℕ) : Type 0 where
  pub whole : length l ≡ msg_size
  pub verifies : verify_crc32 (word l 0) (some (unsealed l)) msg_size ≡ e_ok
  pub size_right : word l 4 ≡ msg_size
  pub id_right : word l 8 ≡ id
  pub direction_right : word l 12 ≡ md2rtss
  pub status_right : word l 16 ≡ 0

abbrev pub bytes_at : Memory → ℕ → List ℕ
bytes_at m msg = tabulate msg_size (λ k. m (msg + k))

pub word-bytes_at :
    (m : Memory) (msg k : ℕ) → k + 4 ≤ 72 → word (bytes_at m msg) k ≡ get_reg m (msg + k)
unfolding get_reg
word-bytes_at m msg k h =
    rw
      (
        get_or-tabulate 72 (λ k. m (msg + k)) k 0 (omega arith),
        get_or-tabulate 72 (λ k. m (msg + k)) (k + 1) 0 (omega arith),
        get_or-tabulate 72 (λ k. m (msg + k)) (k + 2) 0 (omega arith),
        get_or-tabulate 72 (λ k. m (msg + k)) (k + 3) 0 (omega arith),
      )
      (omega (arith, next 1, next 2, next 3))
  where
    next : (i : ℕ) → m (msg + (k + i)) ≡ m (msg + k + i)
    next i = ap m (omega arith)

byte_zero : (m : Memory) (a k : ℕ) → get_reg m a ≡ 0 → k < 4 → m (a + k) ≡ 0
unfolding get_reg
byte_zero m a zero e h = ap m (let z : a + 0 ≡ a = omega arith in z) ∙ omega arith
byte_zero m a (suc zero) e h = omega arith
byte_zero m a (suc (suc zero)) e h = omega arith
byte_zero m a (suc (suc (suc zero))) e h = omega arith
byte_zero m a (suc (suc (suc (suc k)))) e h = absurd (omega arith)

module _ (m : Memory) (msg id : ℕ) (m' : Memory) (c : Composed m msg id m') where
  abbrev pub checksum : ℕ
  checksum = value (λ k. m' (msg + k)) msg_size

  abbrev pub sealed : Memory
  sealed = set_reg m' (header_crc msg) checksum

  pub crc_into_message : msg ≢ 0 → crc_into m' (header_crc msg) msg msg_size ≡ (e_ok, sealed)
  unfolding crc_into
  crc_into_message h = ground (arith, calculated (λ k. m' (msg + k)) 72 (omega arith))

  pub sealed-Only : Only msg msg_size m sealed
  sealed-Only =
      Only-trans msg 72 c.only
        (Only-wider msg 4 msg 72 (set_reg-Only m' msg checksum) (omega arith) (omega arith))

  reg : (k : ℕ) → 4 ≤ k → k + 4 ≤ 72 → word (bytes_at sealed msg) k ≡ get_reg m' (msg + k)
  reg k l u =
      word-bytes_at sealed msg k u ∙ get_reg-set_reg-Apart m' msg (msg + k) checksum (omega arith)

  crc_held : word (bytes_at sealed msg) 0 ≡ checksum
  crc_held =
      word-bytes_at sealed msg 0 (omega arith)
      ∙ ap (get_reg sealed) (let z : msg + 0 ≡ msg = omega arith in z)
      ∙ (get_reg-set_reg m' msg checksum (value_bounded (λ k. m' (msg + k)) 72))

  unsealed_same : (k : ℕ) → k < 72 → unsealed (bytes_at sealed msg) k ≡ m' (msg + k)
  unsealed_same k h = elim (dec_lt k 4) [
    | yes low ↦ rw (lt→ltb k 4 low) (sym (byte_zero m' msg k c.crc_clear low))
    | no high ↦
        rw (le→ltb 4 k (omega arith), get_or-tabulate 72 (λ k. sealed (msg + k)) k 0 h)
          (set_reg-Apart m' msg checksum (msg + k) (omega arith))
  ]

  checksum_same : value (unsealed (bytes_at sealed msg)) 72 ≡ checksum
  checksum_same =
      ap (λ (t : ℕ). bit_xor (crc32_reflect t) 0xffff_ffff)
        (crc32_loop_ext 72 0 _ _ 0xffff_ffff (λ k l u. unsealed_same k (omega arith)))

  pub sealed-IsRequest : IsRequest (bytes_at sealed msg) id
  sealed-IsRequest = record {
    whole = length-tabulate 72 (λ k. sealed (msg + k));
    verifies =
        (verify_crc32-calculate_crc32 (some (unsealed (bytes_at sealed msg))) 72
            (word (bytes_at sealed msg) 0)).1
          (rw
            (crc_held, calculated (unsealed (bytes_at sealed msg)) 72 (omega arith), checksum_same)
            refl);
    size_right = reg 4 (omega arith) (omega arith) ∙ c.size_set;
    id_right = reg 8 (omega arith) (omega arith) ∙ c.id_set;
    direction_right = reg 12 (omega arith) (omega arith) ∙ c.direction_set;
    status_right = reg 16 (omega arith) (omega arith) ∙ c.status_clear;
  }

-- ===== src/Updater/Load/Padded.antt =====
-- A file that is loaded, and the padding behind it.
use native.Mathlib.Nat.{mod-add-div, mul-mod_right, mod-lt}
use rtss_mailbox_umd.Base.{
  ℕ, zero, suc, ◌+◌, ◌-◌, ◌*◌, ◌/◌, ◌%◌, ◌^◌, ◌≤◌, ◌<◌, ◌≡◌, ◌≢◌, ◌⊎◌, sym, ap, ◌∙◌, arith, true,
  some, List, [], ◌∷◌, length, get_or, ℕ_discrete,
}
use rtss_mailbox_umd.Base.Int.{pos, int32_small}
use rtss_mailbox_umd.Memory.{Memory}
use rtss_mailbox_umd.Update.Message.{set_run, set_byte, set_bytes}
use rtss_mailbox_umd.Update.Message.Compose.{set_run-Only, set_bytes-Only}
use rtss_mailbox_umd.Updater.Buffers.{mset, padding}
use rtss_mailbox_umd.Updater.Buffers.Runs.{mset-set_run}
use rtss_mailbox_umd.Updater.Load.{File, load_open, loadfile}

-- With its padding a size is the next multiple of the alignment.
pub padding_next : (n a : ℕ) → 0 < a → ((n + padding n a) % a ≡ 0) × (n + padding n a < n + a)
unfolding padding
padding_next n a h = elim (ℕ_discrete (n % a) 0) [
  | yes even ↦ ground arith
  | no odd ↦
      let rest = mod-add-div n a in
      let less = mod-lt n h in
      let whole : n + (a - n % a) ≡ a * (n / a + 1) = grind arith in
      let multiple : (n + (a - n % a)) % a ≡ 0 =
        ap (λ (t : ℕ). t % a) whole ∙ mul-mod_right a (n / a + 1) in
      ground arith
]

set_bytes_inside :
    (m : Memory) (a : ℕ) (vs : List ℕ) (k : ℕ)
    → k < length vs
    → set_bytes m a vs (a + k) ≡ get_or vs k 0 % 256
unfolding set_bytes set_byte set_run
set_bytes_inside m a [] k h = absurd (omega arith)
set_bytes_inside m a (v ∷ vs) zero h =
    set_bytes-Only (set_byte m a v) (a + 1) vs (a + 0) (omega arith) ∙ ground arith
set_bytes_inside m a (v ∷ vs) (suc k) h =
    ap (set_bytes (set_byte m a v) (a + 1) vs) (let e : a + suc k ≡ a + 1 + k = omega arith in e)
    ∙ set_bytes_inside (set_byte m a v) (a + 1) vs k (omega arith)

-- The file can be read, and all of it is.
pub record IsReadable (f : File) (bytes : List ℕ) : Type 0 where
  pub is_found : f.found ≡ true
  pub is_owned : f.owner_reads ≡ true
  pub is_opened : f.opens ≡ true
  pub delivered : f.bytes ≡ some bytes
  pub whole : length bytes ≡ f.st_size

module _ (m : Memory) (dst alignment : ℕ) (bytes : List ℕ) (dst_ok : dst ≢ 0)
    (align_pos : 0 < alignment) (small : length bytes + alignment < 2 ^ 31) where
  abbrev n : ℕ
  n = length bytes

  abbrev pad : ℕ
  pad = padding n alignment

  abbrev filled : Memory
  filled = set_bytes m dst bytes

  abbrev padded : Memory
  padded = set_run filled (dst + n) 0 pad

  fill_same :
      (p : ℕ)
      → mset (set_byte filled (dst + n) 0) (dst + n) 0 pad p
        ≡ set_run (set_byte filled (dst + n) 0) (dst + n) 0 pad p
  fill_same p = mset-set_run (set_byte filled (dst + n) 0) (dst + n) 0 pad p (omega arith)

  load_open_pads :
      let (r, m') = load_open m dst alignment n (some bytes) in
      (r ≡ pos (n + pad)) × ((p : ℕ) → m' p ≡ padded p)
  unfolding load_open set_byte set_run
  load_open_pads =
      let next = padding_next n alignment align_pos in
      elim (ℕ_discrete pad 0) [
        | yes even ↦
            (rw even (ground (arith, int32_small n (omega arith))), λ p. rw even (ground arith))
        | no odd ↦
            (ground (arith, int32_small (n + pad) (omega arith)), λ p. ground (arith, fill_same p))
      ]

  padded_low : (k : ℕ) → k < n → padded (dst + k) ≡ get_or bytes k 0 % 256
  padded_low k h =
      set_run-Only filled (dst + n) 0 pad (dst + k) (omega arith) ∙ set_bytes_inside m dst bytes k h

  padded_high : (k : ℕ) → n ≤ k → k < n + pad → padded (dst + k) ≡ 0
  unfolding set_run
  padded_high k l u = ground arith

  padded_outside : (p : ℕ) → (p < dst) ⊎ (dst + (n + pad) ≤ p) → padded p ≡ m p
  padded_outside p out =
      set_run-Only filled (dst + n) 0 pad p (omega arith)
      ∙ set_bytes-Only m dst bytes p (omega arith)

  opened :
      (files : List ℕ → File) (path : List ℕ)
      → IsReadable (files path) bytes
      → loadfile files m (some path) dst alignment ≡ load_open m dst alignment n (some bytes)
  unfolding loadfile
  opened files path f =
      rw (f.is_found, f.is_owned, f.is_opened, f.delivered, sym f.whole) (ground (arith, dst_ok))

  -- `rtss_updater_loadfile` puts a file that can be read into the buffer, with zeros up to the next
  -- multiple of the alignment, touches nothing else, and returns that length.
  pub loadfile_pads :
      (files : List ℕ → File) (path : List ℕ)
      → IsReadable (files path) bytes
      → let (r, m') = loadfile files m (some path) dst alignment in
        (len : ℕ) × (r ≡ pos len)
        × (n ≤ len)
        × (len < n + alignment)
        × (len % alignment ≡ 0)
        × ((k : ℕ) → k < n → m' (dst + k) ≡ get_or bytes k 0 % 256)
        × ((k : ℕ) → n ≤ k → k < len → m' (dst + k) ≡ 0)
        × ((p : ℕ) → (p < dst) ⊎ (dst + len ≤ p) → m' p ≡ m p)
  loadfile_pads files path f =
      let next = padding_next n alignment align_pos in
      rw (opened files path f) (
        n + pad,
        load_open_pads.0,
        omega arith,
        next.1,
        next.0,
        λ k h. load_open_pads.1 (dst + k) ∙ padded_low k h,
        λ k l u. load_open_pads.1 (dst + k) ∙ padded_high k l u,
        λ p out. load_open_pads.1 p ∙ padded_outside p out,
      )

-- ===== src/Memory/Word.antt =====
-- What a 32-bit register holds after a store to it, to another, and after a copy elsewhere.
use rtss_mailbox_umd.Base.{ℕ, ◌+◌, ◌-◌, ◌^◌, ◌≤◌, ◌<◌, ◌≡◌, ◌⊎◌, arith}
use rtss_mailbox_umd.Memory.{Memory, get_reg, set_reg, copy_run}

-- Two ranges of addresses do not meet.
abbrev pub Apart : ℕ → ℕ → ℕ → ℕ → Type 0
Apart a n b k = (a + n ≤ b) ⊎ (b + k ≤ a)

pub get_reg-set_reg : (m : Memory) (a v : ℕ) → v < 2 ^ 32 → get_reg (set_reg m a v) a ≡ v
unfolding get_reg set_reg
get_reg-set_reg m a v h = ground arith

pub set_reg-Apart : (m : Memory) (a v p : ℕ) → (p < a) ⊎ (a + 4 ≤ p) → set_reg m a v p ≡ m p
unfolding set_reg
set_reg-Apart m a v p h = ground arith

pub get_reg_ext :
    (m m' : Memory) (a : ℕ)
    → ((p : ℕ) → a ≤ p → p < a + 4 → m p ≡ m' p)
    → get_reg m a ≡ get_reg m' a
unfolding get_reg
get_reg_ext m m' a h = omega (
  arith,
  h a (omega arith) (omega arith),
  h (a + 1) (omega arith) (omega arith),
  h (a + 2) (omega arith) (omega arith),
  h (a + 3) (omega arith) (omega arith),
)

pub get_reg-set_reg-Apart :
    (m : Memory) (a b v : ℕ) → Apart a 4 b 4 → get_reg (set_reg m a v) b ≡ get_reg m b
get_reg-set_reg-Apart m a b v h =
    get_reg_ext (set_reg m a v) m b (λ p l u. set_reg-Apart m a v p (omega arith))

pub copy_run-Apart : (m : Memory) (d s n p : ℕ) → (p < d) ⊎ (d + n ≤ p) → copy_run m d s n p ≡ m p
unfolding copy_run
copy_run-Apart m d s n p h = ground arith

pub copy_run_inside :
    (m : Memory) (d s n p : ℕ) → d ≤ p → p < d + n → copy_run m d s n p ≡ m (s + (p - d))
unfolding copy_run
copy_run_inside m d s n p l u = ground arith

pub get_reg-copy_run-Apart :
    (m : Memory) (d s n b : ℕ) → Apart d n b 4 → get_reg (copy_run m d s n) b ≡ get_reg m b
get_reg-copy_run-Apart m d s n b h =
    get_reg_ext (copy_run m d s n) m b (λ p l u. copy_run-Apart m d s n p (omega arith))

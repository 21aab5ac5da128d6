-- ===== src/Mailbox/Ring/Indices.antt =====
-- Arithmetic of the two indices of a ring of `n` slots: `w` is the write index, `r` the read
-- index, and `(w + n - r) % n` the number of items between them.
use native.Mathlib.Nat.{mod-eq_of_lt}
use rtss_mailbox_umd.Base.{ℕ, ◌+◌, ◌-◌, ◌%◌, ◌≤◌, ◌<◌, ◌≡◌, ◌≢◌, ◌⊎◌, inl, inr, arith, dec_lt}
use rtss_mailbox_umd.Mailbox.Ring.Put.{mod_over}

abbrev pub Once : ℕ → ℕ → Type 0
Once x n = ((x < n) × (x % n ≡ x)) ⊎ ((n ≤ x) × (x % n ≡ x - n))

-- The remainder of an index that passes the end at most once.
pub mod_below_twice : (x n : ℕ) → x < n + n → Once x n
mod_below_twice x n h = elim (dec_lt x n) [
  | yes p ↦ inl (p, mod-eq_of_lt {n = x} {m = n} p)
  | no p ↦ inr (omega arith, mod_over x n (omega arith) h)
]

abbrev pub between : ℕ → ℕ → ℕ → ℕ
between n w r = (w + n - r) % n

module _ (n w r : ℕ) (w_in : w < n) (r_in : r < n) where
  pub between_cases : ((r ≤ w) × (between n w r ≡ w - r)) ⊎ ((w < r) × (between n w r ≡ w + n - r))
  between_cases = omega (arith, mod_below_twice (w + n - r) n (omega arith))

  pub between-lt : between n w r < n
  between-lt = omega (arith, between_cases)

  -- The write index moves on by `k` items.
  pub between-add : (k : ℕ) → between n w r + k < n → between n ((w + k) % n) r ≡ between n w r + k
  between-add k room =
      let moved : Once (w + k) n = mod_below_twice (w + k) n (omega arith) in
      omega (arith, between_cases, mod_below_twice ((w + k) % n + n - r) n (omega arith))

  -- The read index moves on by `k` items.
  pub between-sub : (k : ℕ) → k ≤ between n w r → between n w ((r + k) % n) ≡ between n w r - k
  between-sub k few =
      let moved : Once (r + k) n = mod_below_twice (r + k) n (omega (arith, between-lt)) in
      omega (
        arith,
        between_cases,
        mod_below_twice (w + n - (r + k) % n) n (omega (arith, between_cases)),
      )

  -- The free slots behind the items are those from the write index on.
  pub slot_new : (k : ℕ) → between n w r + k < n → (r + (between n w r + k)) % n ≡ (w + k) % n
  slot_new k room = omega (
    arith,
    between_cases,
    mod_below_twice (r + (between n w r + k)) n (omega arith),
    mod_below_twice (w + k) n (omega arith),
  )

  -- They are not the slots of the items.
  pub slot_ne : (j k : ℕ) → j < between n w r → between n w r + k < n → (w + k) % n ≢ (r + j) % n
  slot_ne j k h room = omega (
    arith,
    between_cases,
    mod_below_twice (r + j) n (omega arith),
    mod_below_twice (w + k) n (omega arith),
  )

  pub slot_skip : (j k : ℕ) → j + k < n → ((r + k) % n + j) % n ≡ (r + (k + j)) % n
  slot_skip j k h = omega (
    arith,
    mod_below_twice (r + k) n (omega arith),
    mod_below_twice (r + (k + j)) n (omega arith),
    mod_below_twice ((r + k) % n + j) n (omega arith),
  )

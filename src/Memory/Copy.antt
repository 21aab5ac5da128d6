-- ===== src/Memory/Copy.antt =====
-- The loops of `libmbcopy_bytes`, by words and by bytes, against one copy of the whole run.
use rtss_mailbox_umd.Base.{
  ℕ, zero, suc, ◌+◌, ◌*◌, ◌/◌, ◌%◌, ◌≡◌, ◌≢◌, ◌∙◌, refl, ap, fun_ext, arith, Bool, ◌&&◌, ◌||◌, ◌==◌,
  ==_iff, Bool-cases, inl, inr,
}
use rtss_mailbox_umd.Memory.{Memory, copy_run, Cursor, move, quads, singles, loops, libmbcopy_bytes}
use rtss_mailbox_umd.Memory.Word.{Apart}

loops-singles : (w : ℕ) (c : Cursor) (n : ℕ) → loops w c n ≡ singles w c n
unfolding loops quads singles
loops-singles w c zero = refl
loops-singles w c (suc zero) = refl
loops-singles w c (suc (suc zero)) = refl
loops-singles w c (suc (suc (suc zero))) = refl
loops-singles w c (suc (suc (suc (suc n)))) =
    loops-singles w (move w (move w (move w (move w c)))) n

-- The cursor after `n` bytes are copied at once.
jump : ℕ → Cursor → Cursor
jump n c = record { mem = copy_run c.mem c.dest c.src n; dest = c.dest + n; src = c.src + n }

-- Two copies behind one another are one, if the source does not lie in what the first wrote.
copy_run-copy_run :
    (m : Memory) (d s a b : ℕ)
    → Apart d (a + b) s (a + b)
    → copy_run (copy_run m d s a) (d + a) (s + a) b ≡ copy_run m d s (a + b)
unfolding copy_run
copy_run-copy_run m d s a b h = fun_ext λ p. ground arith

Cursor-eq : {c c' : Cursor} → c.mem ≡ c'.mem → c.dest ≡ c'.dest → c.src ≡ c'.src → c ≡ c'
Cursor-eq p q r = λ i. record { mem = p i; dest = q i; src = r i }

jump-zero : (c : Cursor) → c ≡ jump 0 c
unfolding jump copy_run
jump-zero c = Cursor-eq (fun_ext λ p. ground arith) (omega arith) (omega arith)

jump-jump :
    (a b : ℕ) (c : Cursor) → Apart c.dest (a + b) c.src (a + b) → jump b (jump a c) ≡ jump (a + b) c
unfolding jump
jump-jump a b c h =
    Cursor-eq (copy_run-copy_run c.mem c.dest c.src a b h) (omega arith) (omega arith)

move-jump : (w : ℕ) (c : Cursor) → move w c ≡ jump w c
unfolding move jump
move-jump w c = refl

singles-jump :
    (w : ℕ) (c : Cursor) (n : ℕ)
    → Apart c.dest (n * w) c.src (n * w)
    → singles w c n ≡ jump (n * w) c
unfolding singles
singles-jump w c zero h = jump-zero c ∙ ap (λ (k : ℕ). jump k c) (omega arith)
singles-jump w c (suc n) h =
    let split : suc n * w ≡ w + n * w = omega arith in
    let apart : Apart c.dest (w + n * w) c.src (w + n * w) = omega arith in
    rw (split, ← jump-jump w (n * w) c apart, move-jump w c)
      (singles-jump w (jump w c) n (unfold jump in omega arith))

loops-jump :
    (w : ℕ) (c : Cursor) (n : ℕ) → Apart c.dest (n * w) c.src (n * w) → loops w c n ≡ jump (n * w) c
loops-jump w c n h = loops-singles w c n ∙ singles-jump w c n h

-- A copy by words of 8 and then by bytes is one jump.
loops-loops :
    (c : Cursor) (words bytes n : ℕ)
    → words * 8 + bytes ≡ n
    → Apart c.dest n c.src n
    → (loops 1 (loops 8 c words) bytes).mem ≡ copy_run c.mem c.dest c.src n
loops-loops c words bytes n e h =
    rw
      (
        loops-jump 8 c words (omega arith),
        loops-jump 1 (jump (words * 8) c) bytes (unfold jump in omega arith),
        jump-jump (words * 8) (bytes * 1) c (omega arith),
      )
      (unfold jump in ap (copy_run c.mem c.dest c.src) (omega arith))

-- The copy routine, by words where both pointers are aligned and by bytes where not, does what
-- one copy of `n` bytes does, if neither pointer is NULL and the two runs do not meet. It does
-- so for every count, 0 included.
pub libmbcopy_bytes-copy_run :
    (m : Memory) (dest src n : ℕ)
    → dest ≢ 0
    → src ≢ 0
    → Apart dest n src n
    → libmbcopy_bytes m dest src n ≡ copy_run m dest src n
unfolding libmbcopy_bytes copy_run
libmbcopy_bytes-copy_run m dest src n hd hs h = elim (Bool-cases (n == 0)) [
  | inl none_left ↦
      rw (not_null hs hd, none_left)
        (fun_ext λ p. let e : n ≡ 0 = (==_iff n 0).0 none_left in ground arith)
  | inr some_left ↦
      rw (not_null hs hd, some_left)
        (elim (Bool-cases (both_aligned dest src)) [
          | inl aligned ↦ rw aligned (loops-loops start (n / 8) (n % 8) n (omega arith) h)
          | inr unaligned ↦ rw unaligned (loops-loops start 0 n n (omega arith) h)
        ])
]
  where
    start : Cursor
    start = record { mem = m; dest = dest; src = src }

    both_aligned : ℕ → ℕ → Bool
    both_aligned d s = d % 8 == 0 && s % 8 == 0

    not_null : src ≢ 0 → dest ≢ 0 → (src == 0 || dest == 0 || n == 0) ≡ (n == 0)
    not_null a b = ground arith

-- ===== src/Updater/Buffers/Runs.antt =====
-- The byte loops of `rtss_updater_mcpy` and `rtss_updater_mset` as one copy and one filling.
use rtss_mailbox_umd.Base.{
  ℕ, zero, suc, ◌+◌, ◌-◌, ◌≤◌, ◌<◌, ◌≡◌, ◌≢◌, ◌⊎◌, refl, sym, ap, ◌∙◌, arith, min, ℕ_discrete,
  dec_lt,
}
use rtss_mailbox_umd.Memory.{Memory, copy_run}
use rtss_mailbox_umd.Memory.Word.{Apart, copy_run-Apart, copy_run_inside}
use rtss_mailbox_umd.Update.Message.{set_run}
use rtss_mailbox_umd.Updater.Buffers.{mcpy, mcpy_loop, mset, mset_loop}

mset_loop-set_run :
    (left c : ℕ) (m : Memory) (dst val p : ℕ)
    → mset_loop left c m dst val p ≡ set_run m (dst + c) val left p
unfolding mset_loop set_run
mset_loop-set_run zero c m dst val p = ground arith
mset_loop-set_run (suc left) c m dst val p =
    mset_loop-set_run left (c + 1) (set_run m (dst + c) val 1) dst val p ∙ ground arith

pub mcpy_loop_outside :
    (left c : ℕ) (m : Memory) (dst src p : ℕ)
    → (p < dst + c) ⊎ (dst + c + left ≤ p)
    → mcpy_loop left c m dst src p ≡ m p
unfolding mcpy_loop
mcpy_loop_outside zero c m dst src p out = refl
mcpy_loop_outside (suc left) c m dst src p out =
    mcpy_loop_outside left (c + 1) (copy_run m (dst + c) (src + c) 1) dst src p (omega arith)
    ∙ copy_run-Apart m (dst + c) (src + c) 1 p (omega arith)

mcpy_loop_inside :
    (left c : ℕ) (m : Memory) (dst src k : ℕ)
    → Apart dst (c + left) src (c + left)
    → c ≤ k
    → k < c + left
    → mcpy_loop left c m dst src (dst + k) ≡ m (src + k)
unfolding mcpy_loop
mcpy_loop_inside zero c m dst src k apart l u = absurd (omega arith)
mcpy_loop_inside (suc left) c m dst src k apart l u = elim (ℕ_discrete k c) [
  | yes here ↦
      mcpy_loop_outside left (c + 1) (copy_run m (dst + c) (src + c) 1) dst src (dst + k)
        (omega arith)
      ∙ copy_run_inside m (dst + c) (src + c) 1 (dst + k) (omega arith) (omega arith)
      ∙ ap m (omega arith)
  | no later ↦
      mcpy_loop_inside left (c + 1) (copy_run m (dst + c) (src + c) 1) dst src k (omega arith)
        (omega arith) (omega arith)
      ∙ copy_run-Apart m (dst + c) (src + c) 1 (src + k) (omega arith)
]

mcpy_loop-copy_run :
    (n : ℕ) (m : Memory) (dst src p : ℕ)
    → Apart dst n src n
    → mcpy_loop n 0 m dst src p ≡ copy_run m dst src n p
mcpy_loop-copy_run n m dst src p apart = elim (dec_lt p dst) [
  | yes below ↦
      mcpy_loop_outside n 0 m dst src p (omega arith)
      ∙ sym (copy_run-Apart m dst src n p (omega arith))
  | no from ↦ elim (dec_lt p (dst + n)) [
    | yes inside ↦
        ap (mcpy_loop n 0 m dst src) (let e : p ≡ dst + (p - dst) = omega arith in e)
        ∙ mcpy_loop_inside n 0 m dst src (p - dst) (omega arith) (omega arith) (omega arith)
        ∙ sym (copy_run_inside m dst src n p (omega arith) inside)
    | no behind ↦
        mcpy_loop_outside n 0 m dst src p (omega arith)
        ∙ sym (copy_run-Apart m dst src n p (omega arith))
  ]
]

-- `rtss_updater_mcpy` between buffers that do not meet copies as many bytes as both sizes allow,
-- returns how many, and is the same as one copy of the run.
pub mcpy-copy_run :
    (m : Memory) (dst dst_size src src_size : ℕ)
    → dst ≢ 0
    → src ≢ 0
    → let k = min dst_size src_size in
      Apart dst k src k
      → let (n, m') = mcpy m dst dst_size src src_size in
        (n ≡ k) × ((p : ℕ) → m' p ≡ copy_run m dst src k p)
unfolding mcpy
mcpy-copy_run m dst dst_size src src_size dst_ok src_ok apart = (
  ground arith,
  λ p. ground (arith, mcpy_loop-copy_run (min dst_size src_size) m dst src p apart),
)

-- `rtss_updater_mset` fills the run, or does nothing with NULL.
pub mset-set_run :
    (m : Memory) (dst val n p : ℕ) → dst ≢ 0 → mset m dst val n p ≡ set_run m dst val n p
unfolding mset
mset-set_run m dst val n p h = ground (arith, mset_loop-set_run n 0 m dst val p)

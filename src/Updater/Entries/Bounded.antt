-- ===== src/Updater/Entries/Bounded.antt =====
-- Where `rtss_updater_read_img_digest_context` writes.
use rtss_mailbox_umd.Base.{ℕ, zero, suc, ◌+◌, ◌*◌, ◌≤◌, ◌<◌, ◌≡◌, ◌⊎◌, refl, ◌∙◌, arith, min}
use rtss_mailbox_umd.Memory.{Memory, get_reg}
use rtss_mailbox_umd.Memory.Word.{set_reg-Apart}
use rtss_mailbox_umd.Update.Message.{set_run}
use rtss_mailbox_umd.Update.Message.Compose.{set_run-Only}
use rtss_mailbox_umd.Updater.Buffers.{mcpy}
use rtss_mailbox_umd.Updater.Buffers.Runs.{mcpy_loop_outside}
use rtss_mailbox_umd.Updater.Entries.{
  copy_word, copy_digest_head, digest_loop, digest_rounds, read_img_digest_context,
}

mcpy-outside :
    (m : Memory) (dst n src k p : ℕ) → (p < dst) ⊎ (dst + n ≤ p) → (mcpy m dst n src k).1 p ≡ m p
unfolding mcpy
mcpy-outside m dst n src k p h =
    ground (arith, mcpy_loop_outside (min n k) 0 m dst src p (omega arith))

copy_word-outside :
    (m : Memory) (to from k p : ℕ) → (p < to + k) ⊎ (to + k + 4 ≤ p) → copy_word m to from k p ≡ m p
unfolding copy_word
copy_word-outside m to from k p h = set_reg-Apart m (to + k) (get_reg m (from + k)) p h

copy_digest_head-outside :
    (m : Memory) (to from p : ℕ) → (p < to) ⊎ (to + 172 ≤ p) → copy_digest_head m to from p ≡ m p
unfolding copy_digest_head
copy_digest_head-outside m to from p h =
    copy_word-outside _ to from 40 p (omega arith)
    ∙ copy_word-outside _ to from 36 p (omega arith)
    ∙ copy_word-outside _ to from 32 p (omega arith)
    ∙ mcpy-outside _ to 32 from 32 p (omega arith)
    ∙ set_run-Only (set_run m to 0 32) (to + 44) 0 128 p (omega arith)
    ∙ set_run-Only m to 0 32 p (omega arith)

digest_loop-outside :
    (left : ℕ) (m : Memory) (to from p : ℕ)
    → (p < to) ⊎ (to + 172 * left ≤ p)
    → (digest_loop left m to from).1 p ≡ m p
unfolding digest_loop
digest_loop-outside zero m to from p h = refl
digest_loop-outside (suc left) m to from p h =
    let m' = copy_digest_head m to from in
    let head = copy_digest_head-outside m to from p (omega arith) in
    let digest =
      mcpy-outside m' (to + 44) 128 (from + 44) (get_reg m' (from + 40)) p (omega arith) in
    let rest =
      digest_loop-outside left (mcpy m' (to + 44) 128 (from + 44) (get_reg m' (from + 40))).1
        (to + 172) (from + 172) p (omega arith) in
    ground (arith, rest ∙ digest ∙ head, head)

-- Whatever the RTSS has written, and however many images it names, `rtss_updater_read_img_digest_context`
-- writes inside the five entries of the array.
pub read_img_digest_context_bounded :
    (m : Memory) (array va num p : ℕ)
    → (p < array) ⊎ (array + 172 * 5 ≤ p)
    → (read_img_digest_context m array va num).1 p ≡ m p
unfolding read_img_digest_context
read_img_digest_context_bounded m array va num p h =
    let few : digest_rounds num ≤ 5 = ground arith in
    let inside = digest_loop-outside (digest_rounds num) m array va p (omega arith) in
    ground (arith, inside)

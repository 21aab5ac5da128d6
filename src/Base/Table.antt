-- ===== src/Base/Table.antt =====
-- A test that all entries of a table are put to, by evaluation.
use Prim.Native.Nat.{ℕ, zero, suc, ◌+◌, ◌≤◌, ◌<◌}
use mathlib.Core.Path.{◌≡◌}
use mathlib.Core.Bool.{Bool, true, false}
use native.Mathlib.Omega.{arith}
use native.Mathlib.Decide.{ℕ_discrete}
use rtss_mailbox_umd.Base.Tests.{if◌then◌else◌}

-- Whether entry `i` and the `left - 1` entries behind it pass.
unfoldable pub entries_pass : (ℕ → Bool) → ℕ → ℕ → Bool
entries_pass test i zero = true
entries_pass test i (suc left) = if test i then entries_pass test (i + 1) left else false

pub entries_pass_at :
    (test : ℕ → Bool) (i left j : ℕ)
    → i ≤ j
    → j < i + left
    → entries_pass test i left ≡ true
    → test j ≡ true
unfolding entries_pass
entries_pass_at test i zero j low high passed = absurd (omega arith)
entries_pass_at test i (suc left) j low high passed = elim (ℕ_discrete i j) [
  | yes e ↦ rw (← e) (ground arith)
  | no ne ↦ ground (arith, entries_pass_at test (i + 1) left j)
]

-- ===== src/Mailbox/Access/Fifo/Tests.antt =====
-- A run of calls on the mailbox of the access tests, one of them against a full queue.
use rtss_mailbox_umd.Base.{◌<◌, ◌≡◌, arith, List, [], ◌∷◌, ◌++◌, length}
use rtss_mailbox_umd.Memory.{get_reg, set_reg}
use rtss_mailbox_umd.Mailbox.Access.Open.{IsOpen, queue, queue_cap}
use rtss_mailbox_umd.Mailbox.Access.Tests.{demo, demo_mb, demo-IsOpen}
use rtss_mailbox_umd.Mailbox.Access.Fifo.{
  Call, writes, reads, calls, shape_of, AreClear, calls_fifo,
}

abbrev four_calls : List Call
four_calls = writes 5000 1 ∷ writes 5004 1 ∷ reads 6000 2 ∷ writes 5004 2 ∷ []

four_calls-AreClear : AreClear demo_mb 0 (shape_of demo_mb 0 demo) four_calls
unfolding demo get_reg set_reg
four_calls-AreClear = (
  (omega arith, omega arith),
  (
    (omega arith, omega arith),
    ((omega arith, omega arith), ((omega arith, omega arith), omega arith)),
  ),
)

calls_fifo_example :
    let (m', accepted, delivered) = calls demo_mb 0 four_calls demo in
    IsOpen m' demo_mb 0
    × (shape_of demo_mb 0 m' ≡ shape_of demo_mb 0 demo)
    × (queue demo demo_mb 0 ++ accepted ≡ delivered ++ queue m' demo_mb 0)
    × (length (queue m' demo_mb 0) < queue_cap m' demo_mb 0)
calls_fifo_example = calls_fifo demo_mb 0 four_calls demo demo-IsOpen four_calls-AreClear

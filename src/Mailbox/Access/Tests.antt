-- ===== src/Mailbox/Access/Tests.antt =====
-- A mailbox with one sub-region, of four slots of four bytes each, and runs of the theorems on it.
use rtss_mailbox_umd.Base.{
  ℕ, ◌+◌, ◌%◌, ◌<◌, ◌≤◌, ◌≡◌, ◌⊎◌, refl, arith, true, [], ◌∷◌, ◌++◌, length, min,
}
use rtss_mailbox_umd.Base.Int.{pos, is_neg, pos_part}
use rtss_mailbox_umd.Memory.{Memory, get_reg, set_reg}
use rtss_mailbox_umd.Memory.Word.{Apart}
use rtss_mailbox_umd.Mailbox.Ring.Item.{items}
use rtss_mailbox_umd.Mailbox.Ring.Contents.{IsSane, Fits, item_count}
use rtss_mailbox_umd.Mailbox.Access.{write, read, get_free_item_num, get_valid_item_num, chan_reset}
use rtss_mailbox_umd.Mailbox.Access.Open.{IsOpen, queue, queue_cap, queue_size, BufferApart}
use rtss_mailbox_umd.Mailbox.Access.Send.{write_appends}
use rtss_mailbox_umd.Mailbox.Access.Receive.{read_removes}
use rtss_mailbox_umd.Mailbox.Access.Errors.{write_all_or_nothing, read_bounded}
use rtss_mailbox_umd.Mailbox.Access.RoundTrip.{read-write}
use rtss_mailbox_umd.Mailbox.Access.Counts.{counters_exact, chan_reset_empties}

abbrev pub demo_mb : ℕ
demo_mb = 1000

abbrev demo_base : ℕ
demo_base = 1040

-- The queue goes round: it holds the items of slots 3 and 0.
unfoldable pub demo : Memory
demo =
    set_reg
      (set_reg
        (set_reg
          (set_reg (set_reg (set_reg (set_reg (λ p. p % 251) 1016 0x4d4c_3130) 1028 1) 1032 40) 1080
            4)
          1084 4)
        1088 1)
      1092 3

demo_sane : IsSane demo demo_base
unfolding demo get_reg set_reg
demo_sane = record {
  not_null = omega arith;
  capacity_small = omega arith;
  size_small = omega arith;
  in_range = omega arith;
  out_range = omega arith;
}

demo_fits : Fits demo demo_base
unfolding demo get_reg set_reg
demo_fits = record { size_pos = omega arith; bytes_small = omega arith }

pub demo-IsOpen : IsOpen demo demo_mb 0
unfolding demo get_reg set_reg
demo-IsOpen = record {
  not_null = omega arith;
  created = refl;
  index_in = omega arith;
  sane = demo_sane;
  fits = demo_fits;
  behind = omega arith;
}

demo_holds : length (queue demo demo_mb 0) ≡ 2
unfolding demo get_reg set_reg
demo_holds = refl

demo_size : queue_size demo demo_mb 0 ≡ 4
unfolding demo get_reg set_reg
demo_size = refl

demo_cap : queue_cap demo demo_mb 0 ≡ 4
unfolding demo get_reg set_reg
demo_cap = refl

demo-queue : queue demo demo_mb 0 ≡ (104 ∷ 105 ∷ 106 ∷ 107 ∷ []) ∷ (92 ∷ 93 ∷ 94 ∷ 95 ∷ []) ∷ []
unfolding demo get_reg set_reg
demo-queue = refl

-- a buffer behind the mailbox
pub far_buffer : (n : ℕ) → n < 100 → BufferApart demo demo_mb 0 5000 n
unfolding demo get_reg set_reg
far_buffer n h = omega arith

write_appends_example :
    let (r, m') = write demo demo_mb 5000 1 0 in
    (r ≡ pos 1)
    × (queue m' demo_mb 0 ≡ queue demo demo_mb 0 ++ items demo 5000 (queue_size demo demo_mb 0) 1)
    × IsOpen m' demo_mb 0
write_appends_example =
    write_appends demo demo_mb 0 demo-IsOpen 5000 1 (omega arith)
      (omega (arith, demo_holds, demo_cap)) (far_buffer 1 (omega arith))

read_removes_example :
    let (r, m') = read demo demo_mb 5000 3 0 in
    let k = min (length (queue demo demo_mb 0)) 3 in
    (r ≡ pos k)
    × (queue demo demo_mb 0 ≡ items m' 5000 (queue_size demo demo_mb 0) k ++ queue m' demo_mb 0)
    × IsOpen m' demo_mb 0
read_removes_example =
    read_removes demo demo_mb 0 demo-IsOpen 5000 3 (omega arith)
      (far_buffer (min (length (queue demo demo_mb 0)) 3) (omega arith))

counters_exact_example :
    (get_valid_item_num demo demo_mb 0 ≡ pos (length (queue demo demo_mb 0)))
    × (free : ℕ) × (get_free_item_num demo demo_mb 0 ≡ pos free)
    × (free + length (queue demo demo_mb 0) + 1 ≡ queue_cap demo demo_mb 0)
counters_exact_example = counters_exact demo demo_mb 0 demo-IsOpen

chan_reset_empties_example :
    let (r, m') = chan_reset demo demo_mb 0 in
    (r ≡ pos 0)
    × (queue m' demo_mb 0 ≡ [])
    × IsOpen m' demo_mb 0
    × ((p : ℕ)
        → (p < demo_mb + get_reg demo 1032 + 48) ⊎ (demo_mb + get_reg demo 1032 + 56 ≤ p)
        → m' p ≡ demo p)
chan_reset_empties_example = chan_reset_empties demo demo_mb 0 demo-IsOpen

write_all_or_nothing_example :
    let (r, m') = write demo demo_mb 5000 3 0 in (r ≡ pos 3) ⊎ ((is_neg r ≡ true) × (m' ≡ demo))
write_all_or_nothing_example = write_all_or_nothing demo demo_mb 5000 3 0

read_bounded_example :
    let (r, m') = read demo demo_mb 5000 1 0 in (pos_part r ≤ 1) × (pos_part r ≡ 0 → m' ≡ demo)
read_bounded_example = read_bounded demo demo_mb 5000 1 0

bad_index : is_neg (get_free_item_num demo demo_mb 1) ≡ true
unfolding demo get_reg set_reg get_free_item_num
bad_index = refl

demo_room : item_count demo demo_base + 1 < 4
unfolding demo get_reg set_reg
demo_room = omega arith

demo-Apart : Apart 5000 4 demo_base 72
demo-Apart = omega arith

-- The same mailbox with nothing in its queue: both indices are 3.
unfoldable drained : Memory
drained = set_reg demo 1088 3

drained_sane : IsSane drained demo_base
unfolding drained demo get_reg set_reg
drained_sane = record {
  not_null = omega arith;
  capacity_small = omega arith;
  size_small = omega arith;
  in_range = omega arith;
  out_range = omega arith;
}

drained-IsOpen : IsOpen drained demo_mb 0
unfolding drained demo get_reg set_reg
drained-IsOpen = record {
  not_null = omega arith;
  created = refl;
  index_in = omega arith;
  sane = drained_sane;
  fits = record { size_pos = omega arith; bytes_small = omega arith };
  behind = omega arith;
}

drained_empty : queue drained demo_mb 0 ≡ []
unfolding drained demo get_reg set_reg
drained_empty = refl

drained_cap : queue_cap drained demo_mb 0 ≡ 4
unfolding drained demo get_reg set_reg
drained_cap = refl

drained_far : (buf n : ℕ) → 4000 ≤ buf → BufferApart drained demo_mb 0 buf n
unfolding drained demo get_reg set_reg
drained_far buf n h = omega arith

-- two items, which go round the end of the ring
read-write_example :
    let (w, m1) = write drained demo_mb 5000 2 0 in
    let (r, m2) = read m1 demo_mb 6000 2 0 in
    (w ≡ pos 2)
    × (r ≡ pos 2)
    × (items m2 6000 (queue_size drained demo_mb 0) 2
        ≡ items drained 5000 (queue_size drained demo_mb 0) 2)
    × (queue m2 demo_mb 0 ≡ [])
read-write_example =
    read-write drained demo_mb 0 drained-IsOpen 5000 6000 2 (omega arith) (omega arith)
      drained_empty (omega (arith, drained_cap)) (drained_far 5000 2 (omega arith))
      (drained_far 6000 2 (omega arith))

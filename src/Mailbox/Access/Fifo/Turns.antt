-- ===== src/Mailbox/Access/Fifo/Turns.antt =====
-- Two sub-regions of one mailbox, and calls on both in any interleaving.
use rtss_mailbox_umd.Base.{
  ℕ, ◌+◌, ◌*◌, ◌≤◌, ◌≡◌, ◌≢◌, refl, sym, ap, ◌∙◌, arith, List, [], ◌∷◌, ◌++◌, length, min, dec_lt,
}
use mathlib.Core.List.{append-nil}
use rtss_mailbox_umd.Memory.{Memory}
use rtss_mailbox_umd.Memory.Word.{Apart}
use rtss_mailbox_umd.Mailbox.Ring.Item.{mul_mono}
use rtss_mailbox_umd.Mailbox.Access.{sub_region_base}
use rtss_mailbox_umd.Mailbox.Access.Open.{IsOpen, queue, queue_cap, queue_size}
use rtss_mailbox_umd.Mailbox.Access.Frame.{SamePlaces, places_kept}
use rtss_mailbox_umd.Mailbox.Access.Send.{write_full, write-outside}
use rtss_mailbox_umd.Mailbox.Access.Receive.{read-outside}
use rtss_mailbox_umd.Mailbox.Access.Fifo.{
  Call, writes, reads, call, call_fifo, IsClear, Shape, shape_of, in_turn,
}

-- Both sub-regions are open, do not meet, lie behind the entries of both in the header, and end
-- `limit` bytes behind the start of the mailbox, or before.
pub record Beside (mb limit i j : ℕ) (m : Memory) : Type 0 where
  pub one : IsOpen m mb i
  pub other : IsOpen m mb j
  pub apart :
      Apart
        (sub_region_base m mb i)
        (56 + queue_cap m mb i * queue_size m mb i)
        (sub_region_base m mb j)
        (56 + queue_cap m mb j * queue_size m mb j)
  pub one_behind : mb + 40 + 8 * j ≤ sub_region_base m mb i
  pub other_behind : mb + 40 + 8 * i ≤ sub_region_base m mb j
  pub one_ends : sub_region_base m mb i + 56 + queue_cap m mb i * queue_size m mb i ≤ mb + limit
  pub other_ends : sub_region_base m mb j + 56 + queue_cap m mb j * queue_size m mb j ≤ mb + limit

module _ (mb limit : ℕ) where
  -- The buffer is not NULL, and does not meet the mailbox.
  abbrev pub IsOff : ℕ → Call → Type 0
  IsOff size (writes buf n) = (buf ≢ 0) × Apart buf (n * size) mb limit
  IsOff size (reads buf n) = (buf ≢ 0) × Apart buf (n * size) mb limit

  flip : (i j : ℕ) (m : Memory) → Beside mb limit i j m → Beside mb limit j i m
  flip i j m b = record {
    one = b.other;
    other = b.one;
    apart = omega (arith, b.apart);
    one_behind = b.other_behind;
    other_behind = b.one_behind;
    one_ends = b.other_ends;
    other_ends = b.one_ends;
  }

  module _ (i j : ℕ) (m : Memory) (b : Beside mb limit i j m) where
    clear : (c : Call) → IsOff (queue_size m mb i) c → IsClear mb i (shape_of mb i m) c
    clear (writes buf n) off = (off.0, omega (arith, off.1, b.one_ends))
    clear (reads buf n) off = (off.0, omega (arith, off.1, b.one_ends))

    -- A call on the one sub-region does not store into the places of the other.
    call_elsewhere : (c : Call) → IsOff (queue_size m mb i) c → SamePlaces m (call mb i c m).0 mb j
    unfolding call
    call_elsewhere (writes src n) off p h =
        elim (dec_lt (length (queue m mb i) + n) (queue_cap m mb i)) [
          | yes room ↦
              write-outside m mb i b.one src n off.0 room (omega (arith, off.1, b.one_ends)) p
                (omega (arith, b.apart, b.one_behind))
          | no full ↦ rw (write_full m mb i b.one src n off.0 (omega arith)) refl
        ]
    call_elsewhere (reads dest n) off p h =
        let few = min (length (queue m mb i)) n in
        let less = mul_mono few n (queue_size m mb i) (omega arith) in
        read-outside m mb i b.one dest n off.0 (omega (arith, off.1, b.one_ends, less)) p
          (omega (arith, off.1, b.other_ends, less, b.other.behind))
          (omega (arith, b.apart, b.one_behind))

    call-Beside :
        (c : Call)
        → IsOff (queue_size m mb i) c
        → let (m', accepted, delivered) = call mb i c m in
          Beside mb limit i j m'
          × (queue_size m' mb i ≡ queue_size m mb i)
          × (queue_size m' mb j ≡ queue_size m mb j)
          × (queue m mb i ++ accepted ≡ delivered ++ queue m' mb i)
          × (queue m' mb j ≡ queue m mb j)
    call-Beside c off =
        let (open_one, shape, fifo) = call_fifo mb i c m b.one (clear c off) in
        let (open_other, base', cap', size', same) =
          places_kept m (call mb i c m).0 mb j b.other (call_elsewhere c off) in
        let base = ap (λ s. mb + Shape.start s) shape in
        let cap = ap (λ s. Shape.cap s) shape in
        let size = ap (λ s. Shape.size s) shape in
        (
          record {
            one = open_one;
            other = open_other;
            apart = rw (cap, size, cap', size', base, base') b.apart;
            one_behind = rw base b.one_behind;
            other_behind = rw base' b.other_behind;
            one_ends = rw (cap, size, base) b.one_ends;
            other_ends = rw (cap', size', base') b.other_ends;
          },
          size,
          size',
          fifo,
          same,
        )

-- A call on the one sub-region, or on the other.
pub data Turn : Type 0 where
  first second : Call → Turn

-- The items that the writes have accepted, and those that the reads have delivered.
pub record Log : Type 0 where
  pub accepted : List (List ℕ)
  pub delivered : List (List ℕ)

abbrev quiet : Log
quiet = record { accepted = []; delivered = [] }

abbrev behind : Log → Log → Log
behind l l' = record {
  accepted = l.accepted ++ l'.accepted;
  delivered = l.delivered ++ l'.delivered;
}

module _ (mb limit i j : ℕ) where
  -- The memory behind the calls, and the log of each sub-region.
  turn : Turn → Memory → Memory × Log × Log
  turn (first c) m =
      let (m', accepted, delivered) = call mb i c m in
      (m', record { accepted = accepted; delivered = delivered }, quiet)
  turn (second c) m =
      let (m', accepted, delivered) = call mb j c m in
      (m', quiet, record { accepted = accepted; delivered = delivered })

  pub turns : List Turn → Memory → Memory × Log × Log
  turns [] m = (m, quiet, quiet)
  turns (t ∷ ts) m =
      let (m1, l, k) = turn t m in let (m2, l', k') = turns ts m1 in (m2, behind l l', behind k k')

  -- The buffers are off the mailbox, for items of `s` bytes in the one sub-region, `t` in the other.
  abbrev pub AreOff : ℕ → ℕ → List Turn → Type 0
  AreOff s t [] = 0 ≤ s
  AreOff s t (first c ∷ ts) = IsOff mb limit s c × AreOff s t ts
  AreOff s t (second c ∷ ts) = IsOff mb limit t c × AreOff s t ts

  abbrev Kept : Memory → Memory × Log × Log → Type 0
  Kept m r =
      Beside mb limit i j r.0
      × (queue m mb i ++ r.1.accepted ≡ r.1.delivered ++ queue r.0 mb i)
      × (queue m mb j ++ r.2.accepted ≡ r.2.delivered ++ queue r.0 mb j)

  abbrev Sized : Memory → Memory → Type 0
  Sized m m' = (queue_size m' mb i ≡ queue_size m mb i) × (queue_size m' mb j ≡ queue_size m mb j)

  abbrev IsTurn : Memory → Turn → Type 0
  IsTurn m (first c) = IsOff mb limit (queue_size m mb i) c
  IsTurn m (second c) = IsOff mb limit (queue_size m mb j) c

  turn-Kept :
      (t : Turn) (m : Memory)
      → Beside mb limit i j m
      → IsTurn m t
      → Kept m (turn t m) × Sized m (turn t m).0
  unfolding turn
  turn-Kept (first c) m b off =
      let (beside, size, size', fifo, same) = call-Beside mb limit i j m b c off in
      ((beside, fifo, append-nil (queue m mb j) ∙ sym same), (size, size'))
  turn-Kept (second c) m b off =
      let (beside, size, size', fifo, same) =
        call-Beside mb limit j i m (flip mb limit i j m b) c off in
      ((flip mb limit j i _ beside, append-nil (queue m mb i) ∙ sym same, fifo), (size', size))

  now :
      (t : Turn) (ts : List Turn) (m : Memory)
      → AreOff (queue_size m mb i) (queue_size m mb j) (t ∷ ts)
      → IsTurn m t × AreOff (queue_size m mb i) (queue_size m mb j) ts
  now (first c) ts m off = off
  now (second c) ts m off = off

  -- Where two sub-regions of a mailbox do not meet, and no buffer meets the mailbox, any
  -- interleaving of writes and reads on both leaves each a first-in first-out queue of its own:
  -- what it held and what its writes have accepted is what its reads have delivered and what it
  -- holds, in this order. Both stay open, apart and in their bounds.
  pub turns_fifo :
      (ts : List Turn) (m : Memory)
      → Beside mb limit i j m
      → AreOff (queue_size m mb i) (queue_size m mb j) ts
      → let (m', l, k) = turns ts m in
        Beside mb limit i j m'
        × (queue m mb i ++ l.accepted ≡ l.delivered ++ queue m' mb i)
        × (queue m mb j ++ k.accepted ≡ k.delivered ++ queue m' mb j)
  unfolding turns
  turns_fifo [] m b off = (b, append-nil (queue m mb i), append-nil (queue m mb j))
  turns_fifo (t ∷ ts) m b off =
      let (here, later) = now t ts m off in
      let ((beside, one, other), (size, size')) = turn-Kept t m b here in
      let (m1, l, k) = turn t m in
      let (beside', one', other') = turns_fifo ts m1 beside (rw (size, size') later) in
      let (m2, l', k') = turns ts m1 in
      (
        beside',
        in_turn (queue m mb i) (queue m1 mb i) (queue m2 mb i) l.accepted l.delivered l'.accepted
            l'.delivered one one',
        in_turn (queue m mb j) (queue m1 mb j) (queue m2 mb j) k.accepted k.delivered k'.accepted
            k'.delivered other other',
      )

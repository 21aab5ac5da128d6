-- ===== src/Mailbox/Access/Fifo.antt =====
-- A sub-region over a run of calls of `LibMB_Write` and `LibMB_Read`, in any order: the items that the
-- writes accept and the items that the reads deliver.
pub mod Turns
pub mod Tests
use mathlib.Core.Path.{subst}
use mathlib.Core.List.{append-nil, append_assoc}
use rtss_mailbox_umd.Base.{
  ℕ, ◌+◌, ◌*◌, ◌≤◌, ◌<◌, ◌≡◌, ◌≢◌, refl, sym, ap, ◌∙◌, arith, true, false, if◌then◌else◌, List, [],
  ◌∷◌, ◌++◌, length, min, dec_lt,
}
use rtss_mailbox_umd.Base.Int.{pos, pos_part, is_neg}
use rtss_mailbox_umd.Memory.{Memory, get_reg}
use rtss_mailbox_umd.Memory.Word.{Apart}
use rtss_mailbox_umd.Mailbox.Layout.MbDesc
use rtss_mailbox_umd.Mailbox.Ring.Item.{items, mul_mono}
use rtss_mailbox_umd.Mailbox.Access.{write, read}
use rtss_mailbox_umd.Mailbox.Access.Open.{
  IsOpen, queue, queue_cap, queue_size, BufferApart, free_room,
}
use rtss_mailbox_umd.Mailbox.Access.Send.{write_appends, write_full, write_keeps}
use rtss_mailbox_umd.Mailbox.Access.Receive.{read_removes, read_keeps}

-- a call with its buffer and its number of items
pub data Call : Type 0 where
  writes reads : (buf n : ℕ) → Call

-- Two runs, one behind the other, of a queue that holds `p`, `q` and `r` in between.
pub in_turn {ℓ} :
    {A : Type ℓ}
    → (p q r a d a' d' : List A) → p ++ a ≡ d ++ q
    → q ++ a' ≡ d' ++ r
    → p ++ (a ++ a') ≡ (d ++ d') ++ r
in_turn p q r a d a' d' e f =
    sym (append_assoc p a a')
    ∙ ap (λ l. l ++ a') e
    ∙ append_assoc d q a'
    ∙ ap (λ l. d ++ l) f
    ∙ sym (append_assoc d d' r)

module _ (mb i : ℕ) where
  -- The memory behind a call, the items accepted, and the items delivered.
  pub call : Call → Memory → Memory × List (List ℕ) × List (List ℕ)
  call (writes src n) m =
      let (r, m') = write m mb src n i in
      (m', if is_neg r then [] else items m src (queue_size m mb i) n, [])
  call (reads dest n) m =
      let (r, m') = read m mb dest n i in (m', [], items m' dest (queue_size m mb i) (pos_part r))

  pub calls : List Call → Memory → Memory × List (List ℕ) × List (List ℕ)
  calls [] m = (m, [], [])
  calls (c ∷ cs) m =
      let (m1, accepted, delivered) = call c m in
      let (m2, accepted', delivered') = calls cs m1 in
      (m2, accepted ++ accepted', delivered ++ delivered')

  -- Where the sub-region starts, its capacity and its item size.
  pub record Shape : Type 0 where
    pub start : ℕ
    pub cap : ℕ
    pub size : ℕ

  abbrev pub shape_of : Memory → Shape
  shape_of m = record {
    start = get_reg m (MbDesc.sub_region_start_offset mb i);
    cap = queue_cap m mb i;
    size = queue_size m mb i;
  }

  abbrev pub IsClearRun : Shape → ℕ → ℕ → Type 0
  IsClearRun s buf n = (buf ≢ 0) × Apart buf (n * s.size) mb (s.start + 56 + s.cap * s.size)

  -- The buffer is not NULL and does not meet the mailbox.
  abbrev pub IsClear : Shape → Call → Type 0
  IsClear s (writes buf n) = IsClearRun s buf n
  IsClear s (reads buf n) = IsClearRun s buf n

  abbrev pub AreClear : Shape → List Call → Type 0
  AreClear s [] = 0 ≤ s.size
  AreClear s (c ∷ cs) = IsClear s c × AreClear s cs

  abbrev pub shaped : ℕ → ℕ → ℕ → Shape
  shaped start cap size = record { start = start; cap = cap; size = size }

  shape_same : (a b c a' b' c' : ℕ) → a ≡ a' → b ≡ b' → c ≡ c' → shaped a b c ≡ shaped a' b' c'
  shape_same a b c a' b' c' e f g = rw (e, f, g) refl

  pub call_fifo :
      (c : Call) (m : Memory)
      → IsOpen m mb i
      → IsClear (shape_of m) c
      → let (m', accepted, delivered) = call c m in
        IsOpen m' mb i
        × (shape_of m' ≡ shape_of m)
        × (queue m mb i ++ accepted ≡ delivered ++ queue m' mb i)
  unfolding call
  call_fifo (writes src n) m o (src_ok, apart) =
      elim (dec_lt (length (queue m mb i) + n) (queue_cap m mb i)) [
        | yes room ↦
            let sent = write_appends m mb i o src n src_ok room apart in
            let same = write_keeps m mb i o src n src_ok room apart in
            (
              sent.2,
              shape_same _ _ _ _ _ _ (omega (arith, same.0)) same.1 same.2,
              rw sent.0 (sym sent.1),
            )
        | no full ↦
            rw (write_full m mb i o src n src_ok (omega arith)) (o, refl, append-nil (queue m mb i))
      ]
  call_fifo (reads dest n) m o (dest_ok, apart) =
      let few = min (length (queue m mb i)) n in
      let apart' : BufferApart m mb i dest few =
        omega (arith, apart, mul_mono few n (queue_size m mb i) (omega arith)) in
      let got = read_removes m mb i o dest n dest_ok apart' in
      let same = read_keeps m mb i o dest n dest_ok apart' in
      (
        got.2,
        shape_same _ _ _ _ _ _ (omega (arith, same.0)) same.1 same.2,
        append-nil (queue m mb i) ∙ rw got.0 got.1,
      )

  -- Over any run of writes and reads the sub-region is a first-in first-out queue: what it held and
  -- what the writes have accepted is what the reads have delivered and what it holds, in this
  -- order. It stays open and in shape, and always has a slot free.
  pub calls_fifo :
      (cs : List Call) (m : Memory)
      → IsOpen m mb i
      → AreClear (shape_of m) cs
      → let (m', accepted, delivered) = calls cs m in
        IsOpen m' mb i
        × (shape_of m' ≡ shape_of m)
        × (queue m mb i ++ accepted ≡ delivered ++ queue m' mb i)
        × (length (queue m' mb i) < queue_cap m' mb i)
  unfolding calls
  calls_fifo [] m o clear = (o, refl, append-nil (queue m mb i), omega (arith, free_room m mb i o))
  calls_fifo (c ∷ cs) m o (now, later) =
      let (m1, accepted, delivered) = call c m in
      let first = call_fifo c m o now in
      let rest = calls_fifo cs m1 first.0 (subst (λ s. AreClear s cs) (sym first.1) later) in
      let (m2, accepted', delivered') = calls cs m1 in
      (
        rest.0,
        rest.1 ∙ first.1,
        in_turn (queue m mb i) (queue m1 mb i) (queue m2 mb i) accepted delivered accepted'
            delivered' first.2 rest.2,
        rest.3,
      )

-- ===== src/Mailbox/Access/RoundTrip.antt =====
-- A write and a read behind it.
use rtss_mailbox_umd.Base.{
  ℕ, ◌+◌, ◌<◌, ◌≡◌, ◌≢◌, refl, sym, ap, ap₂, ◌∙◌, arith, List, [], ◌∷◌, ◌++◌, length,
  length-tabulate, min,
}
use rtss_mailbox_umd.Base.Int.{pos}
use rtss_mailbox_umd.Memory.{Memory, get_reg}
use rtss_mailbox_umd.Mailbox.Layout.MbDesc
use rtss_mailbox_umd.Mailbox.Ring.Item.{items}
use rtss_mailbox_umd.Mailbox.Access.{write, read, sub_region_base}
use rtss_mailbox_umd.Mailbox.Access.Open.{IsOpen, queue, queue_cap, queue_size, BufferApart}
use rtss_mailbox_umd.Mailbox.Access.Send.{write_appends, write_keeps}
use rtss_mailbox_umd.Mailbox.Access.Receive.{read_removes}

length-append {ℓ} : {A : Type ℓ} → (xs ys : List A) → length (xs ++ ys) ≡ length xs + length ys
length-append [] ys = omega arith
length-append (x ∷ xs) ys = omega (arith, length-append xs ys)

append_nil {ℓ} : {A : Type ℓ} → (xs : List A) → xs ++ [] ≡ xs
append_nil [] = refl
append_nil (x ∷ xs) = ap (λ t. x ∷ t) (append_nil xs)

no_items {ℓ} : {A : Type ℓ} → (xs : List A) → length xs ≡ 0 → xs ≡ []
no_items [] h = refl
no_items (x ∷ xs) h = absurd (omega arith)

-- Of two parts, the first is all if it is as long as the whole.
whole_part {ℓ} :
    {A : Type ℓ} (xs ys zs : List A) → xs ≡ ys ++ zs → length xs ≡ length ys → (ys ≡ xs) × (zs ≡ [])
whole_part xs ys zs e l =
    let none_left : zs ≡ [] = no_items zs (omega (arith, ap length e, length-append ys zs)) in
    (sym (append_nil ys) ∙ ap (λ t. ys ++ t) (sym none_left) ∙ sym e, none_left)

length-items : (m : Memory) (a size n : ℕ) → length (items m a size n) ≡ n
length-items m a size n = length-tabulate _ _

module _ (m : Memory) (mb i : ℕ) (o : IsOpen m mb i) (src dest n : ℕ) (src_ok : src ≢ 0)
    (dest_ok : dest ≢ 0) (empty : queue m mb i ≡ []) (room : n < queue_cap m mb i)
    (src_apart : BufferApart m mb i src n) (dest_apart : BufferApart m mb i dest n) where
  abbrev sent : Memory
  sent = (write m mb src n i).1

  fits_in : length (queue m mb i) + n < queue_cap m mb i
  fits_in = omega (arith, ap length empty, room)

  queued : queue sent mb i ≡ items m src (queue_size m mb i) n
  queued =
      (write_appends m mb i o src n src_ok fits_in src_apart).1
      ∙ ap (λ t. t ++ items m src (queue_size m mb i) n) empty

  all_there : min (length (queue sent mb i)) n ≡ n
  all_there = omega (arith, ap length queued, length-items m src (queue_size m mb i) n)

  same :
      (sub_region_base sent mb i ≡ sub_region_base m mb i)
      × (queue_cap sent mb i ≡ queue_cap m mb i)
      × (queue_size sent mb i ≡ queue_size m mb i)
  same = write_keeps m mb i o src n src_ok fits_in src_apart

  dest_clear : BufferApart sent mb i dest (min (length (queue sent mb i)) n)
  dest_clear =
      let offset : get_reg sent (MbDesc.sub_region_start_offset mb i)
          ≡ get_reg m (MbDesc.sub_region_start_offset mb i) =
        omega (arith, same.0) in
      rw (all_there, same.1, same.2, offset) dest_apart

  -- On an empty queue with room for the items, what `LibMB_Write` sends from one buffer
  -- `LibMB_Read` puts into the other, all of it, in order and unchanged, and the queue is empty
  -- again.
  pub read-write :
      let (w, m1) = write m mb src n i in
      let (r, m2) = read m1 mb dest n i in
      (w ≡ pos n)
      × (r ≡ pos n)
      × (items m2 dest (queue_size m mb i) n ≡ items m src (queue_size m mb i) n)
      × (queue m2 mb i ≡ [])
  read-write =
      let got =
        read_removes sent mb i (write_appends m mb i o src n src_ok fits_in src_apart).2 dest n
          dest_ok dest_clear in
      let m2 : Memory = (read sent mb dest n i).1 in
      let parts =
        whole_part (items m src (queue_size m mb i) n) (items m2 dest (queue_size m mb i) n)
          (queue m2 mb i)
          (sym queued
            ∙ got.1
            ∙ ap₂ (λ (s k : ℕ). items m2 dest s k ++ queue m2 mb i) same.2 all_there)
          (length-items m src (queue_size m mb i) n
            ∙ sym (length-items m2 dest (queue_size m mb i) n)) in
      (
        (write_appends m mb i o src n src_ok fits_in src_apart).0,
        got.0 ∙ ap pos all_there,
        parts.0,
        parts.1,
      )

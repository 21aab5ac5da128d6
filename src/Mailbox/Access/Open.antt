-- ===== src/Mailbox/Access/Open.antt =====
-- An open sub-region: the mailbox has been created, and the sub-region stands for a queue.
use rtss_mailbox_umd.Base.{
  ℕ, ◌+◌, ◌*◌, ◌≤◌, ◌<◌, ◌≡◌, ◌≢◌, ap, arith, List, true, length, length-tabulate,
}
use rtss_mailbox_umd.Memory.{Memory, get_reg}
use rtss_mailbox_umd.Memory.Word.{Apart, get_reg_ext}
use rtss_mailbox_umd.Mailbox.Layout.{mb_magic_number}
use rtss_mailbox_umd.Mailbox.Layout.MbDesc
use rtss_mailbox_umd.Mailbox.Layout.SubRgnDesc
use rtss_mailbox_umd.Mailbox.Ring.{free_item, sanity_check}
use rtss_mailbox_umd.Mailbox.Ring.Contents.{
  capacity, item_size, item_count, contents, IsSane, Fits, sanity_check-IsSane,
  free_item-item_count,
}
use rtss_mailbox_umd.Mailbox.Access.{sub_region_base}

-- The mailbox at `mb` has been created, and its sub-region `i` is sane and fits.
pub record IsOpen (m : Memory) (mb i : ℕ) : Type 0 where
  pub not_null : mb ≢ 0
  pub created : get_reg m (MbDesc.magic mb) ≡ mb_magic_number
  pub index_in : i < get_reg m (MbDesc.num_of_sub_region mb)
  pub sane : IsSane m (sub_region_base m mb i)
  pub fits : Fits m (sub_region_base m mb i)
  -- the sub-region lies behind its entry in the header
  pub behind : mb + 32 + 8 * i + 8 ≤ sub_region_base m mb i

-- What the sub-region holds.
abbrev pub queue : Memory → ℕ → ℕ → List (List ℕ)
queue m mb i = contents m (sub_region_base m mb i)

abbrev pub queue_cap : Memory → ℕ → ℕ → ℕ
queue_cap m mb i = capacity m (sub_region_base m mb i)

abbrev pub queue_size : Memory → ℕ → ℕ → ℕ
queue_size m mb i = item_size m (sub_region_base m mb i)

-- A buffer of `n` items does not meet the mailbox, from its header to the end of the sub-region.
abbrev pub BufferApart : Memory → ℕ → ℕ → ℕ → ℕ → Type 0
BufferApart m mb i buf n =
    Apart buf (n * queue_size m mb i) mb
      (get_reg m (MbDesc.sub_region_start_offset mb i) + 56 + queue_cap m mb i * queue_size m mb i)

pub length-queue :
    (m : Memory) (mb i : ℕ) → length (queue m mb i) ≡ item_count m (sub_region_base m mb i)
length-queue m mb i = length-tabulate _ _

-- A memory that agrees on the header and keeps the capacity, the item size and the sanity of the
-- sub-region keeps it open.
pub IsOpen-kept :
    (m m' : Memory) (mb i : ℕ)
    → IsOpen m mb i
    → ((p : ℕ) → mb ≤ p → p < mb + 32 + 8 * i + 8 → m' p ≡ m p)
    → get_reg m' (SubRgnDesc.max_item_num (sub_region_base m mb i)) ≡ queue_cap m mb i
    → get_reg m' (SubRgnDesc.max_item_size (sub_region_base m mb i)) ≡ queue_size m mb i
    → IsSane m' (sub_region_base m mb i)
    → (sub_region_base m' mb i ≡ sub_region_base m mb i) × IsOpen m' mb i
IsOpen-kept m m' mb i o same cap_same size_same sane' = (
  base_same,
  record {
    not_null = o.not_null;
    created = rw (reg (mb + 16) (omega arith) (omega arith)) o.created;
    index_in = rw (reg (mb + 28) (omega arith) (omega arith)) o.index_in;
    sane = rw base_same sane';
    fits = rw base_same (record {
      size_pos = rw size_same o.fits.size_pos;
      bytes_small = rw (cap_same, size_same) o.fits.bytes_small;
    });
    behind = rw base_same o.behind;
  },
)
  where
    reg : (a : ℕ) → mb ≤ a → a + 4 ≤ mb + 32 + 8 * i + 8 → get_reg m' a ≡ get_reg m a
    reg a l u = get_reg_ext m' m a (λ p l' u'. same p (omega arith) (omega arith))

    base_same : sub_region_base m' mb i ≡ sub_region_base m mb i
    base_same =
        ap (λ (t : ℕ). mb + t)
          (reg (MbDesc.sub_region_start_offset mb i) (omega arith) (omega arith))

module _ (m : Memory) (mb i : ℕ) (o : IsOpen m mb i) where
  pub sane_true : sanity_check m (sub_region_base m mb i) ≡ true
  sane_true = (sanity_check-IsSane m (sub_region_base m mb i)).1 o.sane

  pub free_room :
      free_item m (sub_region_base m mb i) + length (queue m mb i) + 1 ≡ queue_cap m mb i
  free_room = rw length-queue (free_item-item_count m (sub_region_base m mb i) o.sane)

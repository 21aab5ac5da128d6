-- ===== src/Mailbox/Layout/SubRgnDesc.antt =====
-- mbsub_rgn_desc_t, by the address of the sub-region. mbchan_desc_t has the same fields up to
-- `max_item_size`, at the same places.
use rtss_mailbox_umd.Base.{ℕ, ◌+◌}

abbrev pub sender : ℕ → ℕ
sender base = base + 16

abbrev pub receiver : ℕ → ℕ
receiver base = base + 20

abbrev pub prot : ℕ → ℕ
prot base = base + 24

abbrev pub sig : ℕ → ℕ
sig base = base + 28

abbrev pub mode : ℕ → ℕ
mode base = base + 32

abbrev pub prio : ℕ → ℕ
prio base = base + 36

abbrev pub max_item_num : ℕ → ℕ
max_item_num base = base + 40

abbrev pub max_item_size : ℕ → ℕ
max_item_size base = base + 44

abbrev pub item_in_index : ℕ → ℕ
item_in_index base = base + 48

abbrev pub item_out_index : ℕ → ℕ
item_out_index base = base + 52

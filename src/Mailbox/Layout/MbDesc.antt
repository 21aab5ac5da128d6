-- ===== src/Mailbox/Layout/MbDesc.antt =====
-- mb_desc_t, by the address of the mailbox
use rtss_mailbox_umd.Base.{ℕ, ◌+◌, ◌*◌}
use rtss_mailbox_umd.Mailbox.Layout.{area_size}

abbrev pub magic : ℕ → ℕ
magic mb = mb + 16

abbrev pub mb_size : ℕ → ℕ
mb_size mb = mb + 20

abbrev pub mb_prio : ℕ → ℕ
mb_prio mb = mb + 24

abbrev pub num_of_sub_region : ℕ → ℕ
num_of_sub_region mb = mb + 28

abbrev pub sub_region_start_offset : ℕ → ℕ → ℕ
sub_region_start_offset mb i = mb + 32 + area_size * i

abbrev pub sub_region_end_offset : ℕ → ℕ → ℕ
sub_region_end_offset mb i = mb + 36 + area_size * i

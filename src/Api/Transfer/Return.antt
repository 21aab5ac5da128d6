-- ===== src/Api/Transfer/Return.antt =====
-- `rtss_mb_read_timed` returns once `poll` times out, if not before.
use rtss_mailbox_umd.Base.{
  ℕ, Bool, true, false, ◌||◌, ◌≡◌, ◌≢◌, arith, Option, none, some, List, [], ◌∷◌,
}
use rtss_mailbox_umd.Base.Int.{ℤ, is_zero}
use rtss_mailbox_umd.Memory.{Memory}
use rtss_mailbox_umd.Mailbox.Access
use rtss_mailbox_umd.Api.Handle.{Uapi, Handle}
use rtss_mailbox_umd.Api.Transfer.{Wake, wake_error, wait_items, read_timed}

-- One of the returns of `poll` is 0.
abbrev pub has_timeout : List Wake → Bool
has_timeout [] = false
has_timeout (w ∷ ws) = is_zero w.ret || has_timeout ws

wait_items_returns :
    (m : Memory) (mb i : ℕ) (items : ℤ) (wakes : List Wake)
    → has_timeout wakes ≡ true
    → wait_items m mb i items wakes ≢ none
unfolding wait_items wake_error
wait_items_returns m mb i items [] h = absurd (ground arith)
wait_items_returns m mb i items (w ∷ ws) h =
    ground (arith, wait_items_returns w.mem mb i (Access.get_valid_item_num w.mem mb i) ws)

-- With a timeout among the returns of `poll` the call comes back, whatever its arguments.
pub read_timed_returns :
    (api : Uapi) (m : Memory) (rx : Option Handle) (buf sz : ℕ) (ms : ℤ) (wakes : List Wake)
    → has_timeout wakes ≡ true
    → read_timed api m rx buf sz ms wakes ≢ none
unfolding read_timed
read_timed_returns api m none buf sz ms wakes h = ground arith
read_timed_returns api m (some rx) buf sz ms wakes h = ground (
  arith,
  wait_items_returns m rx.p_mb_base_addr rx.subregion_index
      (Access.get_valid_item_num m rx.p_mb_base_addr rx.subregion_index) wakes h,
)

-- ===== src/Mailbox/Create/Use.antt =====
-- A mailbox from its creation on: `LibMB_Create`, and then calls on two of its sub-regions.
use rtss_mailbox_umd.Base.{ℕ, ◌<◌, ◌≡◌, ap, ◌∙◌, sym, arith, List, some, ◌++◌}
use rtss_mailbox_umd.Memory.{Memory}
use rtss_mailbox_umd.Mailbox.Layout.{MbConfig, mb_e_success}
use rtss_mailbox_umd.Mailbox.Access.Open.{queue}
use rtss_mailbox_umd.Mailbox.Access.Fifo.Turns.{Turn, Beside, AreOff, turns, turns_fifo}
use rtss_mailbox_umd.Mailbox.Create.{CfgArray, create}
use rtss_mailbox_umd.Mailbox.Create.Config.{IsConfig, covers, before, within, header}
use rtss_mailbox_umd.Mailbox.Create.Opens.{IsOpened, create-IsOpened}

module _ (m : Memory) (mb : ℕ) (mb_cfg : MbConfig) (cfg : CfgArray) (i j : ℕ)
    (ok : IsConfig mb mb_cfg cfg) (i_first : i < j) (j_in : j < mb_cfg.num_sub_regions) where
  -- Two sub-regions of a created mailbox lie beside each other.
  create-Beside :
      (m' : Memory)
      → IsOpened m' mb i (cfg i)
      → IsOpened m' mb j (cfg j)
      → Beside mb mb_cfg.mb_size i j m'
  create-Beside m' o p = record {
    one = o.ready;
    other = p.ready;
    apart =
        rw (o.cap, o.size, p.cap, p.size, o.base, p.base)
          (omega (
            arith,
            covers mb mb_cfg cfg ok i (omega arith),
            before mb mb_cfg cfg ok i j i_first j_in,
          ));
    one_behind = rw o.base (omega (arith, header mb mb_cfg cfg ok i (omega arith)));
    other_behind = rw p.base (omega (arith, header mb mb_cfg cfg ok j j_in));
    one_ends =
        rw (o.cap, o.size, o.base)
          (omega (
            arith,
            covers mb mb_cfg cfg ok i (omega arith),
            within mb mb_cfg cfg ok i (omega arith),
          ));
    other_ends =
        rw (p.cap, p.size, p.base)
          (omega (arith, covers mb mb_cfg cfg ok j j_in, within mb mb_cfg cfg ok j j_in));
  }

  -- With a mailbox address that is not NULL and a configuration that the check accepts, whose
  -- sub-regions have offsets of 32 bits and at least one item, the items neither empty nor larger
  -- than the library allows and together, with the header, of less than 2 ^ 32 bytes, and names
  -- that are not NULL and lie outside the mailbox:
  -- `LibMB_Create` succeeds. Any interleaving of writes and reads on two of the sub-regions, with
  -- buffers outside the mailbox, then uses each as a first-in first-out queue of its own: what its
  -- writes have accepted is what its reads have delivered and what it holds, in this order. Both
  -- stay open, apart and inside the mailbox.
  pub create_turns_fifo :
      (ts : List Turn)
      → AreOff mb mb_cfg.mb_size i j (cfg i).item_max_size (cfg j).item_max_size ts
      → (m' : Memory) × (create m mb (some mb_cfg) (some cfg) ≡ some (mb_e_success, m'))
        × (let (m'', l, k) = turns mb mb_cfg.mb_size i j ts m' in
            Beside mb mb_cfg.mb_size i j m''
            × (l.accepted ≡ l.delivered ++ queue m'' mb i)
            × (k.accepted ≡ k.delivered ++ queue m'' mb j))
  create_turns_fifo ts off =
      let (m', made, all) = create-IsOpened mb mb_cfg cfg ok m in
      let o = all i (omega arith) in
      let p = all j j_in in
      let (beside, one, other) =
        turns_fifo mb mb_cfg.mb_size i j ts m' (create-Beside m' o p) (rw (o.size, p.size) off) in
      let (m'', l, k) = turns mb mb_cfg.mb_size i j ts m' in
      (
        m',
        made,
        (
          beside,
          ap (λ q. q ++ l.accepted) (sym o.none_in) ∙ one,
          ap (λ q. q ++ k.accepted) (sym p.none_in) ∙ other,
        ),
      )

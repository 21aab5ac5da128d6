-- ===== src/Mailbox/Create/Region.antt =====
-- What one round of the loop of `LibMB_Init_Mailbox` stores.
use rtss_mailbox_umd.Base.{ℕ, ◌+◌, ◌^◌, ◌≤◌, ◌<◌, ◌≡◌, ◌≢◌, ◌⊎◌, ap, ◌∙◌, arith}
use rtss_mailbox_umd.Memory.{Memory, get_reg, set_reg, libmbcopy_bytes}
use rtss_mailbox_umd.Memory.Word.{
  Apart, get_reg-set_reg, get_reg-set_reg-Apart, set_reg-Apart, copy_run-Apart,
}
use rtss_mailbox_umd.Memory.Copy.{libmbcopy_bytes-copy_run}
use rtss_mailbox_umd.Mailbox.Layout.{SubRgnConfig}
use rtss_mailbox_umd.Mailbox.Create.{init_region}

pub name-outside :
    (m : Memory) (dest src p : ℕ)
    → dest ≢ 0
    → src ≢ 0
    → Apart dest 16 src 16
    → (p < dest) ⊎ (dest + 16 ≤ p)
    → libmbcopy_bytes m dest src 16 p ≡ m p
name-outside m dest src p d s apart out =
    ap (λ (f : Memory). f p) (libmbcopy_bytes-copy_run m dest src 16 d s apart)
    ∙ copy_run-Apart m dest src 16 p out

module _ (m : Memory) (base : ℕ) (c : SubRgnConfig) where
  -- the stores up to the two indices, and those behind them
  abbrev front : Memory
  front =
      set_reg
        (set_reg
          (set_reg (set_reg (libmbcopy_bytes m base c.name 16) (base + 40) c.item_max_num)
            (base + 44) c.item_max_size)
          (base + 48) 0)
        (base + 52) 0

  abbrev back : Memory → Memory
  back m' =
      set_reg
        (set_reg
          (set_reg
            (set_reg (set_reg (set_reg m' (base + 16) c.sender) (base + 20) c.receiver) (base + 24)
              c.prot)
            (base + 28) c.sig)
          (base + 32) c.mode)
        (base + 36) c.prio

  back_keeps : (m' : Memory) (b : ℕ) → base + 40 ≤ b → get_reg (back m') b ≡ get_reg m' b
  back_keeps m' b h =
      get_reg-set_reg-Apart _ (base + 36) b c.prio (omega arith)
      ∙ get_reg-set_reg-Apart _ (base + 32) b c.mode (omega arith)
      ∙ get_reg-set_reg-Apart _ (base + 28) b c.sig (omega arith)
      ∙ get_reg-set_reg-Apart _ (base + 24) b c.prot (omega arith)
      ∙ get_reg-set_reg-Apart _ (base + 20) b c.receiver (omega arith)
      ∙ get_reg-set_reg-Apart m' (base + 16) b c.sender (omega arith)

  back-outside : (m' : Memory) (p : ℕ) → (p < base + 16) ⊎ (base + 40 ≤ p) → back m' p ≡ m' p
  back-outside m' p h =
      set_reg-Apart _ (base + 36) c.prio p (omega arith)
      ∙ set_reg-Apart _ (base + 32) c.mode p (omega arith)
      ∙ set_reg-Apart _ (base + 28) c.sig p (omega arith)
      ∙ set_reg-Apart _ (base + 24) c.prot p (omega arith)
      ∙ set_reg-Apart _ (base + 20) c.receiver p (omega arith)
      ∙ set_reg-Apart m' (base + 16) c.sender p (omega arith)

  -- The registers of the ring.
  pub init_region_registers :
      c.item_max_num < 2 ^ 32
      → c.item_max_size < 2 ^ 32
      → let m' = init_region m base c in
        (get_reg m' (base + 40) ≡ c.item_max_num)
        × (get_reg m' (base + 44) ≡ c.item_max_size)
        × (get_reg m' (base + 48) ≡ 0)
        × (get_reg m' (base + 52) ≡ 0)
  unfolding init_region
  init_region_registers num_small size_small = (
    back_keeps front (base + 40) (omega arith)
        ∙ get_reg-set_reg-Apart _ (base + 52) (base + 40) 0 (omega arith)
        ∙ get_reg-set_reg-Apart _ (base + 48) (base + 40) 0 (omega arith)
        ∙ get_reg-set_reg-Apart _ (base + 44) (base + 40) c.item_max_size (omega arith)
        ∙ get_reg-set_reg _ (base + 40) c.item_max_num num_small,
    back_keeps front (base + 44) (omega arith)
        ∙ get_reg-set_reg-Apart _ (base + 52) (base + 44) 0 (omega arith)
        ∙ get_reg-set_reg-Apart _ (base + 48) (base + 44) 0 (omega arith)
        ∙ get_reg-set_reg _ (base + 44) c.item_max_size size_small,
    back_keeps front (base + 48) (omega arith)
        ∙ get_reg-set_reg-Apart _ (base + 52) (base + 48) 0 (omega arith)
        ∙ get_reg-set_reg _ (base + 48) 0 (omega arith),
    back_keeps front (base + 52) (omega arith) ∙ get_reg-set_reg _ (base + 52) 0 (omega arith),
  )

  pub init_region-outside :
      base ≢ 0
      → c.name ≢ 0
      → Apart base 16 c.name 16
      → (p : ℕ) → (p < base) ⊎ (base + 56 ≤ p)
      → init_region m base c p ≡ m p
  unfolding init_region
  init_region-outside b n apart p out =
      back-outside front p (omega arith)
      ∙ set_reg-Apart _ (base + 52) 0 p (omega arith)
      ∙ set_reg-Apart _ (base + 48) 0 p (omega arith)
      ∙ set_reg-Apart _ (base + 44) c.item_max_size p (omega arith)
      ∙ set_reg-Apart _ (base + 40) c.item_max_num p (omega arith)
      ∙ name-outside m base c.name p b n apart (omega arith)

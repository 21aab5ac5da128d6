-- ===== src/Update/Message/Compose.antt =====
-- Which bytes the stores into a message change, and what its header holds then.
use rtss_mailbox_umd.Base.{
  ℕ, ◌+◌, ◌*◌, ◌%◌, ◌^◌, ◌≤◌, ◌<◌, ◌≡◌, ◌⊎◌, refl, ◌∙◌, arith, List, [], ◌∷◌, length,
}
use rtss_mailbox_umd.Memory.{Memory, get_reg, set_reg}
use rtss_mailbox_umd.Memory.Word.{get_reg_ext, get_reg-set_reg, set_reg-Apart}
use rtss_mailbox_umd.Update.Message.{
  msg_size, header_crc, header_size, msg_id, direction, status, body, md2rtss, set_run, set_byte,
  set_bytes, set_words, start_msg,
}

-- The memories differ in the `n` bytes from `a` on at most.
abbrev pub Only : ℕ → ℕ → Memory → Memory → Type 0
Only a n m m' = (p : ℕ) → (p < a) ⊎ (a + n ≤ p) → m' p ≡ m p

pub Only-trans : (a n : ℕ) {m m' m'' : Memory} → Only a n m m' → Only a n m' m'' → Only a n m m''
Only-trans a n h k p out = k p out ∙ h p out

pub Only-wider :
    (a n b k : ℕ) {m m' : Memory} → Only a n m m' → b ≤ a → a + n ≤ b + k → Only b k m m'
Only-wider a n b k h l u p out = h p (omega arith)

pub set_run-Only : (m : Memory) (a v n : ℕ) → Only a n m (set_run m a v n)
unfolding set_run
set_run-Only m a v n p out = ground arith

pub set_reg-Only : (m : Memory) (a v : ℕ) → Only a 4 m (set_reg m a v)
set_reg-Only m a v p out = set_reg-Apart m a v p out

pub set_bytes-Only : (m : Memory) (a : ℕ) (vs : List ℕ) → Only a (length vs) m (set_bytes m a vs)
unfolding set_bytes
set_bytes-Only m a [] p out = refl
set_bytes-Only m a (v ∷ vs) p out =
    set_bytes-Only (set_byte m a v) (a + 1) vs p (omega arith)
    ∙ set_run-Only m a (v % 256) 1 p (omega arith)

pub set_words-Only :
    (m : Memory) (a : ℕ) (vs : List ℕ) → Only a (4 * length vs) m (set_words m a vs)
unfolding set_words
set_words-Only m a [] p out = refl
set_words-Only m a (v ∷ vs) p out =
    set_words-Only (set_reg m a v) (a + 4) vs p (omega arith) ∙ set_reg-Only m a v p (omega arith)

-- the first word of those stored
pub word_at :
    (m : Memory) (a b v : ℕ) (vs : List ℕ)
    → b ≡ a
    → v < 2 ^ 32
    → get_reg (set_words m a (v ∷ vs)) b ≡ v
unfolding set_words
word_at m a b v vs e small =
    get_reg_ext (set_words (set_reg m a v) (a + 4) vs) (set_reg m a v) b
      (λ p l u. set_words-Only (set_reg m a v) (a + 4) vs p (omega arith))
    ∙ rw e (get_reg-set_reg m a v small)

-- The message at `msg` in `m'` has the header of a request with its checksum not yet filled in, and
-- the rest of the memory is as in `m`.
pub record Composed (m : Memory) (msg id : ℕ) (m' : Memory) : Type 0 where
  pub only : Only msg msg_size m m'
  pub crc_clear : get_reg m' (header_crc msg) ≡ 0
  pub size_set : get_reg m' (header_size msg) ≡ msg_size
  pub id_set : get_reg m' (msg_id msg) ≡ id
  pub direction_set : get_reg m' (direction msg) ≡ md2rtss
  pub status_clear : get_reg m' (status msg) ≡ 0

pub start_msg-Composed :
    (m : Memory) (msg id : ℕ) → id < 2 ^ 32 → Composed m msg id (start_msg m msg id)
unfolding start_msg set_words
start_msg-Composed m msg id small = record {
  only = Only-trans msg 72 (set_run-Only m msg 0 72) (
      Only-wider msg 20 msg 72 (set_words-Only (set_run m msg 0 72) msg (0 ∷ 72 ∷ id ∷ 0 ∷ 0 ∷ []))
        (omega arith) (omega arith));
  crc_clear = word_at _ _ _ 0 (72 ∷ id ∷ 0 ∷ 0 ∷ []) (omega arith) (omega arith);
  size_set = word_at _ _ _ 72 (id ∷ 0 ∷ 0 ∷ []) (omega arith) (omega arith);
  id_set = word_at _ _ _ id (0 ∷ 0 ∷ []) (omega arith) (omega arith);
  direction_set = word_at _ _ _ 0 (0 ∷ []) (omega arith) (omega arith);
  status_clear = word_at _ _ _ 0 [] (omega arith) (omega arith);
}

-- A store into the union leaves the header.
pub body_kept :
    {m : Memory} {msg id : ℕ} {m' m'' : Memory}
    → Composed m msg id m'
    → Only (body msg) 52 m' m''
    → Composed m msg id m''
body_kept {msg} {m'} {m''} c h = record {
  only = Only-trans msg 72 c.only (Only-wider (msg + 20) 52 msg 72 h (omega arith) (omega arith));
  crc_clear = same msg (omega arith) ∙ c.crc_clear;
  size_set = same (msg + 4) (omega arith) ∙ c.size_set;
  id_set = same (msg + 8) (omega arith) ∙ c.id_set;
  direction_set = same (msg + 12) (omega arith) ∙ c.direction_set;
  status_clear = same (msg + 16) (omega arith) ∙ c.status_clear;
}
  where
    same : (a : ℕ) → a + 4 ≤ msg + 20 → get_reg m'' a ≡ get_reg m' a
    same a u = get_reg_ext m'' m' a (λ p l u'. h p (omega arith))

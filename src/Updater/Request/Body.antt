-- ===== src/Updater/Request/Body.antt =====
-- The messages that the commands compose: a header, and words and bytes in the union behind it.
use rtss_mailbox_umd.Base.{
  ℕ, zero, suc, ◌+◌, ◌*◌, ◌^◌, ◌≤◌, ◌<◌, arith, List, [], ◌∷◌, length, take,
}
use rtss_mailbox_umd.Memory.{Memory}
use rtss_mailbox_umd.Update.Message.{body, start_msg, set_words, set_bytes}
use rtss_mailbox_umd.Update.Message.Compose.{
  Only-wider, set_words-Only, set_bytes-Only, Composed, start_msg-Composed, body_kept,
}
use rtss_mailbox_umd.Updater.Buffers.{put_name}

length-take : (n : ℕ) (xs : List ℕ) → length (take n xs) ≤ n
length-take zero xs = omega arith
length-take (suc n) [] = omega arith
length-take (suc n) (x ∷ xs) = omega (arith, length-take n xs)

module _ (m : Memory) (msg id : ℕ) where
  pub words_kept :
      (m' : Memory) (a : ℕ) (ws : List ℕ)
      → Composed m msg id m'
      → body msg ≤ a
      → a + 4 * length ws ≤ body msg + 52
      → Composed m msg id (set_words m' a ws)
  words_kept m' a ws c l u =
      body_kept c (Only-wider a (4 * length ws) (body msg) 52 (set_words-Only m' a ws) l u)

  pub bytes_kept :
      (m' : Memory) (a : ℕ) (vs : List ℕ)
      → Composed m msg id m'
      → body msg ≤ a
      → a + length vs ≤ body msg + 52
      → Composed m msg id (set_bytes m' a vs)
  bytes_kept m' a vs c l u =
      body_kept c (Only-wider a (length vs) (body msg) 52 (set_bytes-Only m' a vs) l u)

  pub words :
      (ws : List ℕ)
      → id < 2 ^ 32
      → 4 * length ws ≤ 52
      → Composed m msg id (set_words (start_msg m msg id) (body msg) ws)
  words ws small h =
      words_kept (start_msg m msg id) (body msg) ws (start_msg-Composed m msg id small)
        (omega arith) (omega arith)

  pub named :
      (name : List ℕ)
      → id < 2 ^ 32
      → Composed m msg id (put_name (start_msg m msg id) (body msg) name)
  named name small =
      bytes_kept (start_msg m msg id) (body msg) (take 32 name) (start_msg-Composed m msg id small)
        (omega arith) (omega (arith, length-take 32 name))

  pub named_words :
      (name ws : List ℕ)
      → id < 2 ^ 32
      → 4 * length ws ≤ 20
      → Composed m msg id
          (set_words (put_name (start_msg m msg id) (body msg) name) (body msg + 32) ws)
  named_words name ws small fits =
      words_kept (put_name (start_msg m msg id) (body msg) name) (body msg + 32) ws
        (named name small) (omega arith) (omega arith)

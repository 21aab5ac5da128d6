-- ===== src/Gpt/Guid/Decode.antt =====
-- What the decoding of a GUID accepts, and what the comparison decides.
use rtss_mailbox_umd.Base.{
  ℕ, zero, suc, ◌+◌, ◌<◌, ◌≤◌, ◌≡◌, ◌≢◌, ◌↔◌, ◌⊎◌, refl, ap₂, arith, true, none, some, List, [],
  ◌∷◌, length, get_or, ℕ_discrete, Bool-cases, inl, inr,
}
use rtss_mailbox_umd.Gpt.Guid.{
  Guid, is_hex_digit, char_allowed, chars_allowed, decode_guid_string, same_guid, bytes_equal,
}

bytes_equal_at :
    (n k : ℕ) (a b : List ℕ) (j : ℕ)
    → bytes_equal n k a b ≡ true
    → k ≤ j
    → j < k + n
    → get_or a j 0 ≡ get_or b j 0
unfolding bytes_equal
bytes_equal_at zero k a b j h l u = absurd (omega arith)
bytes_equal_at (suc n) k a b j h l u = elim (ℕ_discrete k j) [
  | yes e ↦ rw (← e) (ground arith)
  | no ne ↦ ground (arith, bytes_equal_at n (k + 1) a b j)
]

bytes_equal_refl : (n k : ℕ) (a : List ℕ) → bytes_equal n k a a ≡ true
unfolding bytes_equal
bytes_equal_refl zero k a = refl
bytes_equal_refl (suc n) k a = ground (arith, bytes_equal_refl n (k + 1) a)

get_or_ext :
    (n : ℕ) (a b : List ℕ)
    → length a ≡ n
    → length b ≡ n
    → ((j : ℕ) → j < n → get_or a j 0 ≡ get_or b j 0)
    → a ≡ b
get_or_ext n [] [] la lb h = refl
get_or_ext n [] (y ∷ b) la lb h = absurd (omega arith)
get_or_ext n (x ∷ a) [] la lb h = absurd (omega arith)
get_or_ext zero (x ∷ a) (y ∷ b) la lb h = absurd (omega arith)
get_or_ext (suc n) (x ∷ a) (y ∷ b) la lb h =
    ap₂ ◌∷◌ (h 0 (omega arith))
      (get_or_ext n a b (omega arith) (omega arith) (λ j p. h (suc j) (omega arith)))

bytes_equal-eq : (a b : List ℕ) → length a ≡ 8 → length b ≡ 8 → bytes_equal 8 0 a b ≡ true → a ≡ b
bytes_equal-eq a b la lb h =
    get_or_ext 8 a b la lb (λ j p. bytes_equal_at 8 0 a b j h (omega arith) (omega arith))

-- The comparison of two GUIDs, each with eight bytes behind its three numbers, decides whether
-- they are equal.
pub same_guid-eq :
    (a b : Guid) → length a.data4 ≡ 8 → length b.data4 ≡ 8 → (same_guid a b ≡ true) ↔ (a ≡ b)
unfolding same_guid
same_guid-eq a b la lb = (
  λ h. ground (arith, bytes_equal-eq a.data4 b.data4 la lb),
  λ e. rw e (ground (arith, bytes_equal_refl 8 0 b.data4)),
)

chars_allowed_all :
    (left i : ℕ) (s : List ℕ)
    → ((j : ℕ) → i ≤ j → j < i + left → char_allowed j (get_or s j 0) ≡ true)
    → chars_allowed left i s ≡ true
unfolding chars_allowed
chars_allowed_all zero i s h = refl
chars_allowed_all (suc left) i s h = rw (
  h i (omega arith) (omega arith),
  chars_allowed_all left (i + 1) s (λ j l u. h j (omega arith) (omega arith)),
)

chars_allowed_at :
    (left i : ℕ) (s : List ℕ) (j : ℕ)
    → chars_allowed left i s ≡ true
    → i ≤ j
    → j < i + left
    → char_allowed j (get_or s j 0) ≡ true
unfolding chars_allowed
chars_allowed_at zero i s j h l u = absurd (omega arith)
chars_allowed_at (suc left) i s j h l u = elim (ℕ_discrete i j) [
  | yes e ↦ rw (← e) (ground arith)
  | no ne ↦ ground (arith, chars_allowed_at left (i + 1) s j)
]

-- What may stand at position `i`.
abbrev pub Fits : ℕ → ℕ → Type 0
Fits i ch = (is_hex_digit ch ≡ true) ⊎ ((ch ≡ b'-') × ((i ≡ 8) ⊎ (i ≡ 13) ⊎ (i ≡ 18) ⊎ (i ≡ 23)))

char_allowed-Fits : (i ch : ℕ) → i < 36 → char_allowed i ch ≡ true → Fits i ch
unfolding char_allowed
char_allowed-Fits i ch l h = ground arith

Fits-char_allowed : (i ch : ℕ) → Fits i ch → char_allowed i ch ≡ true
unfolding char_allowed
Fits-char_allowed i ch (inl h) = rw h refl
Fits-char_allowed i ch (inr (e, h)) = ground arith

decode_tests :
    (s : List ℕ)
    → (decode_guid_string (some s) ≢ none) ↔ ((length s ≡ 36) × (chars_allowed 36 0 s ≡ true))
unfolding decode_guid_string
decode_tests s = (
  λ h. elim (Bool-cases (chars_allowed 36 0 s)) [
    | inl e ↦ (elim (ℕ_discrete (length s) 36) [ yes l ↦ l | no l ↦ absurd (h (ground arith)) ], e)
    | inr e ↦ absurd (h (ground arith))
  ],
  λ (l, e) h. ground arith,
)

-- A string is decoded exactly if it has 36 characters, each a hexadecimal digit, or a dash where
-- it stands at position 8, 13, 18 or 23.
pub decode_accepts :
    (s : List ℕ)
    → (decode_guid_string (some s) ≢ none)
      ↔ ((length s ≡ 36) × ((i : ℕ) → i < 36 → Fits i (get_or s i 0)))
decode_accepts s = (
  λ h.
      let (l, e) = (decode_tests s).0 h in
      (
        l,
        λ i p.
            char_allowed-Fits i (get_or s i 0) p
              (chars_allowed_at 36 0 s i e (omega arith) (omega arith)),
      ),
  λ (l, f). (decode_tests s).1 (
    l,
    chars_allowed_all 36 0 s (λ j p q. Fits-char_allowed j (get_or s j 0) (f j (omega arith))),
  ),
)

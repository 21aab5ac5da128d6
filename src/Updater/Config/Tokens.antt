-- ===== src/Updater/Config/Tokens.antt =====
-- The tokens of a line of plain text, and the line end behind the last of them.
use rtss_mailbox_umd.Base.{
  ℕ, zero, suc, ◌+◌, ◌-◌, ◌≤◌, ◌<◌, ◌≡◌, ◌≢◌, refl, ap, sym, ◌∙◌, arith, Bool, true, false, not,
  ◌&&◌, ◌==◌, none, some, List, [], ◌∷◌, ◌++◌, length, get_or, take, length-append, get_or-append,
  get_or-append_right,
}
use rtss_mailbox_umd.Updater.Config.{
  skip_spaces, to_space, token_of, strtok, c_string, stripped_len,
}

-- no NUL, LF, CR or space
abbrev pub plain_text : List ℕ → Bool
plain_text [] = true
plain_text (c ∷ cs) =
    not (c == 0) && not (c == 10) && not (c == 13) && not (c == 32) && plain_text cs

-- CR LF or LF
abbrev pub line_end : Bool → List ℕ
line_end true = 13 ∷ 10 ∷ []
line_end false = 10 ∷ []

pub c_string-append :
    (xs ys : List ℕ) → plain_text xs ≡ true → c_string (xs ++ ys) ≡ xs ++ c_string ys
unfolding c_string
c_string-append [] ys h = refl
c_string-append (x ∷ xs) ys h = ground (arith, c_string-append xs ys)

to_space-append : (xs ys : List ℕ) → plain_text xs ≡ true → to_space (xs ++ (32 ∷ ys)) ≡ (xs, ys)
unfolding to_space
to_space-append [] ys h = refl
to_space-append (x ∷ xs) ys h = ground (arith, to_space-append xs ys)

to_space_all :
    (xs : List ℕ) (crlf : Bool)
    → plain_text xs ≡ true
    → to_space (xs ++ line_end crlf) ≡ (xs ++ line_end crlf, [])
unfolding to_space
to_space_all [] true h = refl
to_space_all [] false h = refl
to_space_all (x ∷ xs) crlf h = ground (arith, to_space_all xs crlf)

skip_none : (x : ℕ) (xs : List ℕ) → x ≢ 32 → skip_spaces (x ∷ xs) ≡ x ∷ xs
unfolding skip_spaces
skip_none x xs h = ground arith

pub strtok-name :
    (xs ys : List ℕ) → plain_text xs ≡ true → xs ≢ [] → strtok (xs ++ (32 ∷ ys)) ≡ some (xs, ys)
unfolding strtok token_of
strtok-name [] ys h there = absurd (there refl)
strtok-name (x ∷ xs) ys h there =
    rw (skip_none x (xs ++ (32 ∷ ys)) (ground arith)) (ap some (to_space-append (x ∷ xs) ys h))

pub strtok-path :
    (xs : List ℕ) (crlf : Bool)
    → plain_text xs ≡ true
    → strtok (xs ++ line_end crlf) ≡ some (xs ++ line_end crlf, [])
unfolding strtok token_of skip_spaces to_space
strtok-path [] true h = refl
strtok-path [] false h = refl
strtok-path (x ∷ xs) crlf h =
    rw (skip_none x (xs ++ line_end crlf) (ground arith)) (ap some (to_space_all (x ∷ xs) crlf h))

no_cr_at : (xs : List ℕ) (k : ℕ) → plain_text xs ≡ true → k < length xs → get_or xs k 0 ≢ 13
no_cr_at [] k h u = absurd (omega arith)
no_cr_at (x ∷ xs) zero h u = ground arith
no_cr_at (x ∷ xs) (suc k) h u = no_cr_at xs k (ground arith) (omega arith)

-- the character before a LF
no_cr :
    (xs : List ℕ)
    → plain_text xs ≡ true
    → 2 ≤ length xs + 1
    → get_or (xs ++ (10 ∷ [])) (length xs + 1 - 2) 0 ≢ 13
no_cr xs h u e =
    no_cr_at xs (length xs + 1 - 2) h (omega arith)
      (sym (get_or-append xs (10 ∷ []) (length xs + 1 - 2) 0 (omega arith)) ∙ e)

pub stripped_len-append :
    (xs : List ℕ) (crlf : Bool)
    → plain_text xs ≡ true
    → stripped_len (xs ++ line_end crlf) ≡ length xs
unfolding stripped_len
stripped_len-append xs true h =
    let len = length-append xs (13 ∷ 10 ∷ []) in
    let cr = get_or-append_right xs (13 ∷ 10 ∷ []) 0 0 in
    let lf = get_or-append_right xs (13 ∷ 10 ∷ []) 1 0 in rw len (ground (arith, cr, lf))
stripped_len-append xs false h =
    let len = length-append xs (10 ∷ []) in
    let lf = get_or-append_right xs (10 ∷ []) 0 0 in rw len (ground (arith, lf, no_cr xs h))

pub take-append : (xs ys : List ℕ) → take (length xs) (xs ++ ys) ≡ xs
take-append [] ys = refl
take-append (x ∷ xs) ys = ap (λ t. x ∷ t) (take-append xs ys)

pub strtok_empty : strtok [] ≡ none
unfolding strtok token_of skip_spaces
strtok_empty = refl

pub line_end_string : (crlf : Bool) → c_string (line_end crlf) ≡ line_end crlf
unfolding c_string
line_end_string true = refl
line_end_string false = refl

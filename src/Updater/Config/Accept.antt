-- ===== src/Updater/Config/Accept.antt =====
-- What a configuration file that is accepted has in it.
use rtss_mailbox_umd.Base.{
  ℕ, zero, suc, ◌+◌, ◌≤◌, ◌<◌, ◌≡◌, ◌≢◌, ◌↔◌, refl, sym, arith, true, false, Option, none, some,
  List, [], ◌∷◌, ◌++◌, length, get_or, length-append, get_or-append, get_or_last, dec_lt,
  Option-cases, Bool-cases, inl, inr,
}
use rtss_mailbox_umd.Updater.Config.{
  Entry, same_string, is_duplicate, strtok, c_string, parse_path, parse_name, read_lines,
  count_matches, all_supported, run_on, cfgfile_read,
}

abbrev pub blank : Entry
blank = record { name = []; path = [] }

abbrev pub entry : List Entry → ℕ → Entry
entry es k = get_or es k blank

-- No two entries have the same name.
abbrev pub HasDistinctNames : List Entry → Type 0
HasDistinctNames es = (i j : ℕ) → i < j → j < length es → (entry es i).name ≢ (entry es j).name

-- Every name is a supported one.
abbrev pub HasSupportedNames : List (List ℕ) → List Entry → Type 0
HasSupportedNames supported es =
    (i : ℕ)
    → i < length es
    → (k : ℕ) × (k < length supported) × (get_or supported k [] ≡ (entry es i).name)

pub same_string-eq : (a b : List ℕ) → (same_string a b ≡ true) ↔ (a ≡ b)
unfolding same_string
same_string-eq [] [] = ((λ h. refl), (λ e. refl))
same_string-eq [] (y ∷ ys) = ((λ h. absurd (ground arith)), (λ e. absurd (ground (arith, e))))
same_string-eq (x ∷ xs) [] = ((λ h. absurd (ground arith)), (λ e. absurd (ground (arith, e))))
same_string-eq (x ∷ xs) (y ∷ ys) =
    ((λ h. ground (arith, same_string-eq xs ys)), (λ e. ground (arith, e, same_string-eq xs ys)))

is_duplicate_at :
    (token : List ℕ) (es : List Entry) (k : ℕ)
    → is_duplicate token es ≡ false
    → k < length es
    → (entry es k).name ≢ token
unfolding is_duplicate
is_duplicate_at token [] k h u = absurd (omega arith)
is_duplicate_at token (e ∷ es) zero h u = λ s. ground (arith, same_string-eq token e.name)
is_duplicate_at token (e ∷ es) (suc k) h u = is_duplicate_at token es k (ground arith) (omega arith)

parse_path-name :
    (name : List ℕ) (t : Option (List ℕ × List ℕ)) (e : Entry)
    → parse_path name t ≡ some e
    → e.name ≡ name
unfolding parse_path
parse_path-name name none e h = absurd (ground arith)
parse_path-name name (some (path, rest)) e h = ground arith

parse_name_new :
    (n : ℕ) (es : List Entry) (t : Option (List ℕ × List ℕ)) (e : Entry)
    → parse_name n es t ≡ some e
    → (length es < n) × (is_duplicate e.name es ≡ false)
unfolding parse_name
parse_name_new n es none e h = absurd (ground arith)
parse_name_new n es (some (name, rest)) e h = ground (arith, parse_path-name name (strtok rest) e)

names-append :
    (es : List Entry) (e : Entry)
    → HasDistinctNames es
    → is_duplicate e.name es ≡ false
    → HasDistinctNames (es ++ e ∷ [])
names-append es e d h i j l u = elim (dec_lt j (length es)) [
  | yes inside ↦
      rw (get_or-append es (e ∷ []) i blank (omega arith), get_or-append es (e ∷ []) j blank inside)
        (d i j l inside)
  | no last ↦
      let at_end : j ≡ length es = omega (arith, length-append es (e ∷ [])) in
      rw (get_or-append es (e ∷ []) i blank (omega arith), at_end, get_or_last es e blank)
        (is_duplicate_at e.name es i h (omega arith))
]

read_lines_good :
    (n : ℕ) (lines : List (List ℕ)) (es cfg : List Entry)
    → length es ≤ n
    → HasDistinctNames es
    → read_lines n lines es ≡ some cfg
    → (length cfg ≤ n) × HasDistinctNames cfg × (length cfg ≡ length es + length lines)
unfolding read_lines
read_lines_good n [] es cfg fits d h =
    let e : es ≡ cfg = ground arith in rw (← e) (fits, d, omega arith)
read_lines_good n (line ∷ lines) es cfg fits d h =
    elim (Option-cases (parse_name n es (strtok (c_string line)))) [
      | inl refused ↦ absurd (ground (arith, refused))
      | inr (e, parsed) ↦
          let new = parse_name_new n es (strtok (c_string line)) e parsed in
          let more = length-append es (e ∷ []) in
          let h' : read_lines n lines (es ++ e ∷ []) ≡ some cfg = ground (arith, parsed) in
          let r =
            read_lines_good n lines (es ++ e ∷ []) cfg (omega (arith, more, new))
              (names-append es e d new.1) h' in
          (r.0, r.1, omega (arith, r.2, more))
    ]

some_match :
    (name : List ℕ) (supported : List (List ℕ))
    → count_matches name supported ≢ 0
    → (k : ℕ) × (k < length supported) × (get_or supported k [] ≡ name)
unfolding count_matches
some_match name [] h = absurd (h refl)
some_match name (s ∷ ss) h = elim (Bool-cases (same_string name s)) [
  | inl same ↦ (0, omega arith, sym ((same_string-eq name s).0 same))
  | inr other ↦ let (k, u, e) = some_match name ss (ground arith) in (suc k, omega arith, e)
]

all_supported-HasSupportedNames :
    (supported : List (List ℕ)) (es : List Entry)
    → all_supported supported es ≡ true
    → HasSupportedNames supported es
unfolding all_supported
all_supported-HasSupportedNames supported [] h i u = absurd (omega arith)
all_supported-HasSupportedNames supported (e ∷ es) h zero u =
    some_match e.name supported (ground arith)
all_supported-HasSupportedNames supported (e ∷ es) h (suc i) u =
    all_supported-HasSupportedNames supported es (ground arith) i (omega arith)

-- Only paths change.
length-run_on : (es : List Entry) → length (run_on es) ≡ length es
unfolding run_on
length-run_on [] = refl
length-run_on (e ∷ es) = omega (arith, length-run_on es)

run_on_name : (es : List Entry) (k : ℕ) → (entry (run_on es) k).name ≡ (entry es k).name
unfolding run_on
run_on_name [] k = refl
run_on_name (e ∷ es) zero = refl
run_on_name (e ∷ es) (suc k) = run_on_name es k

run_on-HasDistinctNames : (es : List Entry) → HasDistinctNames es → HasDistinctNames (run_on es)
run_on-HasDistinctNames es d i j l u =
    rw (run_on_name es i, run_on_name es j) (d i j l (omega (arith, length-run_on es)))

run_on-HasSupportedNames :
    (supported : List (List ℕ)) (es : List Entry)
    → HasSupportedNames supported es
    → HasSupportedNames supported (run_on es)
run_on-HasSupportedNames supported es h i u =
    rw (run_on_name es i) (h i (omega (arith, length-run_on es)))

-- A configuration file that is accepted has as many lines as entries, at least one and at most as
-- many as images are allowed; their names differ from each other, and each is a supported one.
pub cfgfile_read_accepts :
    (supported : List (List ℕ)) (n : ℕ) (lines : List (List ℕ)) (cfg : List Entry)
    → cfgfile_read supported n (some lines) ≡ some cfg
    → (length cfg ≡ length lines)
      × (0 < length cfg)
      × (length cfg ≤ n)
      × HasDistinctNames cfg
      × HasSupportedNames supported cfg
unfolding cfgfile_read
cfgfile_read_accepts supported n lines cfg h = elim (Option-cases (read_lines n lines [])) [
  | inl refused ↦ absurd (ground (arith, refused))
  | inr (es, read) ↦
      let same : run_on es ≡ cfg = ground (arith, read) in
      let supported_all : all_supported supported es ≡ true = ground (arith, read) in
      let some_entry : 0 < length es = ground (arith, read) in
      let r = read_lines_good n lines [] es (omega arith) (λ i j l u. absurd (omega arith)) read in
      rw (← same) (
        omega (arith, r.2, length-run_on es),
        omega (arith, some_entry, length-run_on es),
        omega (arith, r.0, length-run_on es),
        run_on-HasDistinctNames es r.1,
        run_on-HasSupportedNames supported es
            (all_supported-HasSupportedNames supported es supported_all),
      )
]

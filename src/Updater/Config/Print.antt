-- ===== src/Updater/Config/Print.antt =====
-- The lines of a configuration as they are meant to be written, and their way back.
use mathlib.Core.Path.{subst}
use mathlib.Core.List.{append-nil, append_assoc}
use rtss_mailbox_umd.Base.{
  ℕ, suc, ◌+◌, ◌≤◌, ◌<◌, ◌≡◌, ◌≢◌, refl, ap, sym, ◌∙◌, arith, Bool, true, false, some, List, [],
  ◌∷◌, ◌++◌, map, length, length-append, get_or-append, get_or-append_right, Bool-cases, inl, inr,
  ne→==,
}
use rtss_mailbox_umd.Updater.Config.{
  Entry, same_string, is_duplicate, strtok, c_string, parse_path, parse_name, read_lines,
  count_matches, all_supported, run_on, checked, cfgfile_read, max_imagepath_len,
}
use rtss_mailbox_umd.Updater.Config.Accept.{blank, entry, HasDistinctNames, same_string-eq}
use rtss_mailbox_umd.Updater.Config.Tokens.{
  plain_text, line_end, c_string-append, strtok-name, strtok-path, stripped_len-append, take-append,
  strtok_empty, line_end_string,
}

-- <IMAGE NAME> <PATH> and the line end
abbrev pub print_line : Bool → Entry → List ℕ
print_line crlf e = e.name ++ (32 ∷ (e.path ++ line_end crlf))

-- A name of at least one character, and a path, both of plain text that fits; the path leaves room for
-- the NUL behind it.
pub record IsPrintable (e : Entry) : Type 0 where
  pub name_plain : plain_text e.name ≡ true
  pub path_plain : plain_text e.path ≡ true
  pub name_there : e.name ≢ []
  pub name_fits : length e.name ≤ max_imagepath_len
  pub path_fits : length e.path < max_imagepath_len

no_duplicate :
    (token : List ℕ) (es : List Entry)
    → ((k : ℕ) → k < length es → (entry es k).name ≢ token)
    → is_duplicate token es ≡ false
unfolding is_duplicate
no_duplicate token [] h = refl
no_duplicate token (e ∷ es) h = elim (Bool-cases (same_string token e.name)) [
  | inl same ↦ absurd (h 0 (omega arith) (sym ((same_string-eq token e.name).0 same)))
  | inr other ↦ rw other (no_duplicate token es (λ k u. h (suc k) (omega arith)))
]

printed_string :
    (e : Entry) (crlf : Bool) → IsPrintable e → c_string (print_line crlf e) ≡ print_line crlf e
unfolding c_string
printed_string e crlf p =
    c_string-append e.name (32 ∷ (e.path ++ line_end crlf)) p.name_plain
    ∙ ap (λ t. e.name ++ (32 ∷ t))
        (c_string-append e.path (line_end crlf) p.path_plain
          ∙ ap (λ t. e.path ++ t) (line_end_string crlf))

parse_printed :
    (n : ℕ) (es : List Entry) (e : Entry) (crlf : Bool)
    → IsPrintable e
    → length es < n
    → is_duplicate e.name es ≡ false
    → parse_name n es (strtok (c_string (print_line crlf e))) ≡ some e
unfolding parse_name parse_path
parse_printed n es e crlf p room new =
    rw
      (
        printed_string e crlf p,
        strtok-name e.name (e.path ++ line_end crlf) p.name_plain p.name_there,
        strtok-path e.path crlf p.path_plain,
        strtok_empty,
        stripped_len-append e.path crlf p.path_plain,
        take-append e.path (line_end crlf),
      )
      (ground (arith, p))

abbrev at_end : List Entry → Entry → List Entry
at_end es e = es ++ e ∷ []

read_next :
    (n : ℕ) (line : List ℕ) (lines : List (List ℕ)) (es : List Entry) (e : Entry)
    → parse_name n es (strtok (c_string line)) ≡ some e
    → read_lines n (line ∷ lines) es ≡ read_lines n lines (at_end es e)
unfolding read_lines
read_next n line lines es e h = ground (arith, h)

read_printed :
    (n : ℕ) (crlf : Bool) (rest es : List Entry)
    → ((k : ℕ) → k < length rest → IsPrintable (entry rest k))
    → HasDistinctNames (es ++ rest)
    → length es + length rest ≤ n
    → read_lines n (map (print_line crlf) rest) es ≡ some (es ++ rest)
unfolding read_lines
read_printed n crlf [] es p d fits = ap some (sym (append-nil es))
read_printed n crlf (e ∷ rest) es p d fits =
    read_next n (print_line crlf e) (map (print_line crlf) rest) es e
      (parse_printed n es e crlf (p 0 (omega arith)) (omega arith) new)
    ∙ (read_printed n crlf rest (at_end es e) (λ k u. p (suc k) (omega arith))
        (subst HasDistinctNames (sym (append_assoc es (e ∷ []) rest)) d)
        (omega (arith, length-append es (e ∷ []))))
    ∙ ap some (append_assoc es (e ∷ []) rest)
  where
    here : entry (es ++ (e ∷ rest)) (length es) ≡ entry (es ++ (e ∷ rest)) (length es + 0)
    here = ap (entry (es ++ (e ∷ rest))) (omega arith)

    new : is_duplicate e.name es ≡ false
    new = no_duplicate e.name es (λ k u same.
        d k (length es) u (omega (arith, length-append es (e ∷ rest))) (
          ap (λ x. x.name) (get_or-append es (e ∷ rest) k blank u)
          ∙ same
          ∙ sym (ap (λ x. x.name) (here ∙ get_or-append_right es (e ∷ rest) 0 blank))))

supported_printed :
    (supported : List (List ℕ)) (cfg : List Entry)
    → ((k : ℕ) → k < length cfg → count_matches (entry cfg k).name supported ≡ 1)
    → all_supported supported cfg ≡ true
unfolding all_supported
supported_printed supported [] h = refl
supported_printed supported (e ∷ es) h =
    rw (h 0 (omega arith)) (supported_printed supported es (λ k u. h (suc k) (omega arith)))

-- No path runs on.
run_on_short :
    (cfg : List Entry)
    → ((k : ℕ) → k < length cfg → length (entry cfg k).path < max_imagepath_len)
    → run_on cfg ≡ cfg
unfolding run_on
run_on_short [] h = refl
run_on_short (e ∷ es) h =
    rw
      (
        ne→== (length e.path) 128 (omega (arith, h 0 (omega arith))),
        run_on_short es (λ k u. h (suc k) (omega arith)),
      )
      refl

-- A configuration of one to the allowed number of entries, whose names differ, are of plain text and
-- stand once among the supported ones, and whose paths are of plain text of less than 128 characters, is read back from its
-- lines as it is, whether they end in LF or in CR LF.
pub cfgfile_read-print :
    (supported : List (List ℕ)) (n : ℕ) (crlf : Bool) (cfg : List Entry)
    → ((k : ℕ) → k < length cfg → IsPrintable (entry cfg k))
    → ((k : ℕ) → k < length cfg → count_matches (entry cfg k).name supported ≡ 1)
    → HasDistinctNames cfg
    → 0 < length cfg
    → length cfg ≤ n
    → cfgfile_read supported n (some (map (print_line crlf) cfg)) ≡ some cfg
unfolding cfgfile_read checked
cfgfile_read-print supported n crlf cfg p s d there fits =
    rw (read_printed n crlf cfg [] p d (omega arith), run_on_short cfg (λ k u. (p k u).path_fits))
      (ground (arith, supported_printed supported cfg s))

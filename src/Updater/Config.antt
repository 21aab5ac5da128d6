-- ===== src/Updater/Config.antt =====
-- The configuration file of apps/rtss-updater/demo/src/rtss_updater_cmd.c: `rtss_updater_cfgfile_read`
-- and `rtss_updater_get_img_parse_info`. The file is the list of its lines as `getline` gives them, each
-- with its line end; a line is a list of characters. `none` is EXIT_FAILURE. What has been stored
-- before a failure is left out. A path of 128 characters fills its row and has no NUL, so that it runs on
-- into the next row: an accepted path is the string that is read there. The rows behind the last entry
-- are clear; what stands behind the fifth, outside the array, is left out. A name that fills its row
-- equals no supported one, so that such a file is refused.
pub mod Accept
pub mod Tokens
pub mod Print
pub mod Tests
use rtss_mailbox_umd.Base.{
  ℕ, zero, suc, ◌+◌, ◌-◌, ◌≤◌, Bool, true, false, not, ◌&&◌, ◌||◌, ltb, leb, ◌==◌, if◌then◌else◌,
  Option, none, some, List, [], ◌∷◌, ◌++◌, length, get_or, take,
}

-- an entry of imageNames and of imagePaths
pub record Entry : Type 0 where
  pub name : List ℕ
  pub path : List ℕ

-- RTSS_UPDATER_CFG_MAX_IMAGEPATH_LEN
abbrev pub max_imagepath_len : ℕ
max_imagepath_len = 128

-- RTSS_UPDATER_CFG_MAX_IMAGES
abbrev pub max_images : ℕ
max_images = 5

-- the string up to the NUL
unfoldable pub c_string : List ℕ → List ℕ
c_string [] = []
c_string (c ∷ cs) = if c == 0 then [] else c ∷ c_string cs

-- `strcmp(a, b) == 0`
pub same_string : List ℕ → List ℕ → Bool
same_string [] [] = true
same_string [] (y ∷ ys) = false
same_string (x ∷ xs) [] = false
same_string (x ∷ xs) (y ∷ ys) = let rest = same_string xs ys in x == y && rest

-- The two halves of `strtok_r(s, " ", &s)`: the delimiters before the token, and the token with what
-- stands behind its delimiter.
pub skip_spaces : List ℕ → List ℕ
skip_spaces [] = []
skip_spaces (c ∷ cs) = let rest = skip_spaces cs in if c == 32 then rest else c ∷ cs

pub to_space : List ℕ → List ℕ × List ℕ
to_space [] = ([], [])
to_space (c ∷ cs) =
    let (token, rest) = to_space cs in if c == 32 then ([], cs) else (c ∷ token, rest)

pub token_of : List ℕ → Option (List ℕ × List ℕ)
unfolding to_space
token_of [] = none
token_of (c ∷ cs) = some (to_space (c ∷ cs))

pub strtok : List ℕ → Option (List ℕ × List ℕ)
unfolding skip_spaces token_of
strtok s = token_of (skip_spaces s)

-- the length without CR LF or LF at the end
pub stripped_len : List ℕ → ℕ
stripped_len token =
    let len = length token in
    if leb 2 len && get_or token (len - 2) 0 == 13 && get_or token (len - 1) 0 == 10
    then len - 2
    else if leb 1 len && get_or token (len - 1) 0 == 10
    then len - 1
    else len

-- The loop over the names that are there already.
pub is_duplicate : List ℕ → List Entry → Bool
unfolding same_string
is_duplicate token [] = false
is_duplicate token (e ∷ es) = let rest = is_duplicate token es in same_string token e.name || rest

-- The path, and a third token.
pub parse_path : List ℕ → Option (List ℕ × List ℕ) → Option Entry
unfolding stripped_len
parse_path name none = none
parse_path name (some (path, rest)) =
    if ltb max_imagepath_len (stripped_len path) then none else elim (strtok rest) [
      | some extra ↦ none
      | none ↦ some (record { name = name; path = take (stripped_len path) path })
    ]

-- The body of the loop for the first token of the line.
pub parse_name : ℕ → List Entry → Option (List ℕ × List ℕ) → Option Entry
unfolding is_duplicate parse_path
parse_name num_supported entries none = none
parse_name num_supported entries (some (name, rest)) =
    if leb num_supported (length entries)
    then none
    else if is_duplicate name entries
    then none
    else if ltb max_imagepath_len (length name)
    then none
    else parse_path name (strtok rest)

pub read_lines : ℕ → List (List ℕ) → List Entry → Option (List Entry)
unfolding parse_name
read_lines num_supported [] entries = some entries
read_lines num_supported (line ∷ lines) entries =
    elim (parse_name num_supported entries (strtok (c_string line))) [
      | none ↦ none
      | some e ↦ read_lines num_supported lines (entries ++ e ∷ [])
    ]

-- imgcnt
pub count_matches : List ℕ → List (List ℕ) → ℕ
unfolding same_string
count_matches name [] = 0
count_matches name (s ∷ ss) =
    let rest = count_matches name ss in if same_string name s then suc rest else rest

pub all_supported : List (List ℕ) → List Entry → Bool
unfolding count_matches
all_supported supported [] = true
all_supported supported (e ∷ es) =
    let rest = all_supported supported es in count_matches e.name supported == 1 && rest

-- The path that stands first.
pub first_path : List Entry → List ℕ
first_path [] = []
first_path (e ∷ es) = e.path

-- The paths as they are read back: one that fills its row is followed by the next.
pub run_on : List Entry → List Entry
unfolding first_path
run_on [] = []
run_on (e ∷ es) =
    let rest = run_on es in
    let filled = length e.path == max_imagepath_len in
    record e { path = if filled then e.path ++ first_path rest else e.path } ∷ rest

pub checked : List (List ℕ) → Option (List Entry) → Option (List Entry)
unfolding all_supported run_on
checked supported none = none
checked supported (some entries) =
    if not (all_supported supported entries)
    then none
    else if length entries == 0
    then none
    else some (run_on entries)

-- `none` for the file is one that cannot be opened.
pub cfgfile_read : List (List ℕ) → ℕ → Option (List (List ℕ)) → Option (List Entry)
unfolding read_lines checked
cfgfile_read supported num_supported none = none
cfgfile_read supported num_supported (some lines) =
    checked supported (read_lines num_supported lines [])

-- "SAIL_HYP" and "SAIL_SW1" to "SAIL_SW4"
abbrev pub supported_img_names : List (List ℕ)
supported_img_names =
    (83 ∷ 65 ∷ 73 ∷ 76 ∷ 95 ∷ 72 ∷ 89 ∷ 80 ∷ [])
    ∷ (83 ∷ 65 ∷ 73 ∷ 76 ∷ 95 ∷ 83 ∷ 87 ∷ 49 ∷ [])
    ∷ (83 ∷ 65 ∷ 73 ∷ 76 ∷ 95 ∷ 83 ∷ 87 ∷ 50 ∷ [])
    ∷ (83 ∷ 65 ∷ 73 ∷ 76 ∷ 95 ∷ 83 ∷ 87 ∷ 51 ∷ [])
    ∷ (83 ∷ 65 ∷ 73 ∷ 76 ∷ 95 ∷ 83 ∷ 87 ∷ 52 ∷ [])
    ∷ []

-- `none` for the name of the file is NULL; `opened` is what `fopen` and `getline` give for a name.
pub get_img_parse_info : (List ℕ → Option (List (List ℕ))) → Option (List ℕ) → Option (List Entry)
unfolding cfgfile_read
get_img_parse_info opened none = none
get_img_parse_info opened (some cfgfile) =
    cfgfile_read supported_img_names max_images (opened cfgfile)

-- The loop of `rtss_updater_get_img_info_default`, which leaves the paths alone.
pub default_names : ℕ → List (List ℕ) → List (List ℕ)
default_names zero names = []
default_names (suc left) [] = []
default_names (suc left) (name ∷ names) = take max_imagepath_len name ∷ default_names left names

pub get_img_info_default : List (List ℕ)
unfolding default_names
get_img_info_default = default_names max_images supported_img_names

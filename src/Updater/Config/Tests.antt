-- ===== src/Updater/Config/Tests.antt =====
-- Runs of the theorems on configuration files.
use rtss_mailbox_umd.Base.{
  ℕ, zero, suc, ◌≤◌, ◌<◌, ◌≡◌, refl, arith, true, false, some, List, [], ◌∷◌, ◌++◌, map, length,
}
use rtss_mailbox_umd.Updater.Config.{
  Entry, max_images, supported_img_names, strtok, c_string, count_matches, cfgfile_read,
  get_img_info_default,
}
use rtss_mailbox_umd.Updater.Config.Accept.{
  entry, HasDistinctNames, HasSupportedNames, cfgfile_read_accepts,
}
use rtss_mailbox_umd.Updater.Config.Print.{print_line, IsPrintable, cfgfile_read-print}

abbrev hyp : List ℕ
hyp = 83 ∷ 65 ∷ 73 ∷ 76 ∷ 95 ∷ 72 ∷ 89 ∷ 80 ∷ []

abbrev sw1 : List ℕ
sw1 = 83 ∷ 65 ∷ 73 ∷ 76 ∷ 95 ∷ 83 ∷ 87 ∷ 49 ∷ []

-- "/a" and "/b"
abbrev two_images : List Entry
two_images =
    record { name = hyp; path = 47 ∷ 97 ∷ [] } ∷ record { name = sw1; path = 47 ∷ 98 ∷ [] } ∷ []

two_read :
    cfgfile_read supported_img_names max_images (some (map (print_line true) two_images))
    ≡ some two_images
unfolding cfgfile_read strtok c_string
two_read = refl

cfgfile_read_accepts_example :
    (length two_images ≡ length (map (print_line true) two_images))
    × (0 < length two_images)
    × (length two_images ≤ max_images)
    × HasDistinctNames two_images
    × HasSupportedNames supported_img_names two_images
cfgfile_read_accepts_example =
    cfgfile_read_accepts supported_img_names max_images (map (print_line true) two_images)
      two_images two_read

two_images-IsPrintable : (k : ℕ) → k < 2 → IsPrintable (entry two_images k)
two_images-IsPrintable zero h = record {
  name_plain = refl;
  path_plain = refl;
  name_there = λ e. absurd (ground (arith, e));
  name_fits = omega arith;
  path_fits = omega arith;
}
two_images-IsPrintable (suc zero) h = record {
  name_plain = refl;
  path_plain = refl;
  name_there = λ e. absurd (ground (arith, e));
  name_fits = omega arith;
  path_fits = omega arith;
}
two_images-IsPrintable (suc (suc k)) h = absurd (omega arith)

two_supported : (k : ℕ) → k < 2 → count_matches (entry two_images k).name supported_img_names ≡ 1
unfolding count_matches
two_supported zero h = refl
two_supported (suc zero) h = refl
two_supported (suc (suc k)) h = absurd (omega arith)

two_images-HasDistinctNames : HasDistinctNames two_images
two_images-HasDistinctNames zero (suc zero) l u = λ e. absurd (ground (arith, e))
two_images-HasDistinctNames zero zero l u = absurd (omega arith)
two_images-HasDistinctNames zero (suc (suc j)) l u = absurd (omega arith)
two_images-HasDistinctNames (suc i) j l u = absurd (omega arith)

cfgfile_read-print_example :
    cfgfile_read supported_img_names max_images (some (map (print_line true) two_images))
    ≡ some two_images
cfgfile_read-print_example =
    cfgfile_read-print supported_img_names max_images true two_images two_images-IsPrintable
      two_supported two_images-HasDistinctNames (omega arith) (omega arith)

-- A path that fills its row runs on into the next.
abbrev slashes : ℕ → List ℕ
slashes zero = []
slashes (suc n) = 47 ∷ slashes n

filled_row :
    cfgfile_read supported_img_names max_images (
      some (
        map (print_line false) (
          record { name = hyp; path = slashes 128 }
          ∷ record { name = sw1; path = 47 ∷ 98 ∷ [] }
          ∷ [])))
    ≡ some (
        record { name = hyp; path = slashes 128 ++ (47 ∷ 98 ∷ []) }
        ∷ record { name = sw1; path = 47 ∷ 98 ∷ [] }
        ∷ [])
unfolding cfgfile_read strtok c_string
filled_row = refl

-- A line that ends behind the space is accepted, with an empty path.
empty_path :
    cfgfile_read supported_img_names max_images (some ((hyp ++ (32 ∷ 10 ∷ [])) ∷ []))
    ≡ some (record { name = hyp; path = [] } ∷ [])
unfolding cfgfile_read strtok c_string
empty_path = refl

default_all : get_img_info_default ≡ supported_img_names
unfolding get_img_info_default
default_all = refl

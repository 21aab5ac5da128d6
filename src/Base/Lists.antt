-- ===== src/Base/Lists.antt =====
-- Lists measured and indexed by native numbers, and lists given by a function of the index.
use Prim.Native.Nat.{ℕ, zero, suc, ◌+◌, ◌<◌}
use mathlib.Core.Path.{◌≡◌, refl, ap, ap₂}
use mathlib.Core.List.{List, [], ◌∷◌, ◌++◌}
use mathlib.Core.Option.{Option, none, some}
use native.Mathlib.Nat.{suc-add, zero-add}
use native.Mathlib.Omega.{arith}

module _ {ℓ} {A : Type ℓ} where
  abbrev pub length : List A → ℕ
  length [] = 0
  length (x ∷ xs) = suc (length xs)

  abbrev pub get_elem? : List A → ℕ → Option A
  get_elem? [] i = none
  get_elem? (x ∷ xs) zero = some x
  get_elem? (x ∷ xs) (suc i) = get_elem? xs i

  abbrev pub get_or : List A → ℕ → A → A
  get_or [] i d = d
  get_or (x ∷ xs) zero d = x
  get_or (x ∷ xs) (suc i) d = get_or xs i d

  abbrev pub take : ℕ → List A → List A
  take zero xs = []
  take (suc n) [] = []
  take (suc n) (x ∷ xs) = x ∷ take n xs

  abbrev pub drop : ℕ → List A → List A
  drop zero xs = xs
  drop (suc n) [] = []
  drop (suc n) (x ∷ xs) = drop n xs

  -- f 0, f 1, … , f (n - 1)
  abbrev pub tabulate : ℕ → (ℕ → A) → List A
  tabulate zero f = []
  tabulate (suc n) f = f 0 ∷ tabulate n (λ k. f (suc k))

  pub length-append : (xs ys : List A) → length (xs ++ ys) ≡ length xs + length ys
  length-append [] ys = omega arith
  length-append (x ∷ xs) ys = omega (arith, length-append xs ys)

  pub length-tabulate : (n : ℕ) (f : ℕ → A) → length (tabulate n f) ≡ n
  length-tabulate zero f = refl
  length-tabulate (suc n) f = ap suc (length-tabulate n (λ k. f (suc k)))

  pub tabulate_ext :
      (n : ℕ) (f g : ℕ → A) → ((k : ℕ) → k < n → f k ≡ g k) → tabulate n f ≡ tabulate n g
  tabulate_ext zero f g h = refl
  tabulate_ext (suc n) f g h =
      ap₂ ◌∷◌ (h 0 (omega arith))
        (tabulate_ext n (λ k. f (suc k)) (λ k. g (suc k)) (λ k p. h (suc k) (omega arith)))

  pub get_or-tabulate :
      (n : ℕ) (f : ℕ → A) (k : ℕ) (d : A) → k < n → get_or (tabulate n f) k d ≡ f k
  get_or-tabulate zero f k d h = absurd (omega arith)
  get_or-tabulate (suc n) f zero d h = refl
  get_or-tabulate (suc n) f (suc k) d h = get_or-tabulate n (λ i. f (suc i)) k d (omega arith)

  pub get_or-append :
      (xs ys : List A) (k : ℕ) (d : A) → k < length xs → get_or (xs ++ ys) k d ≡ get_or xs k d
  get_or-append [] ys k d h = absurd (omega arith)
  get_or-append (x ∷ xs) ys zero d h = refl
  get_or-append (x ∷ xs) ys (suc k) d h = get_or-append xs ys k d (omega arith)

  pub get_or-append_right :
      (xs ys : List A) (k : ℕ) (d : A) → get_or (xs ++ ys) (length xs + k) d ≡ get_or ys k d
  get_or-append_right [] ys k d = ap (λ i. get_or ys i d) (omega arith)
  get_or-append_right (x ∷ xs) ys k d = rw suc-add (get_or-append_right xs ys k d)

  pub get_or_last : (xs : List A) (x d : A) → get_or (xs ++ x ∷ []) (length xs) d ≡ x
  get_or_last [] x d = refl
  get_or_last (y ∷ xs) x d = get_or_last xs x d

  pub tabulate-add :
      (a b : ℕ) (f : ℕ → A) → tabulate (a + b) f ≡ tabulate a f ++ tabulate b (λ k. f (a + k))
  tabulate-add zero b f =
      rw zero-add (tabulate_ext b f (λ k. f (0 + k)) (λ k h. ap f (omega arith)))
  tabulate-add (suc a) b f = rw suc-add (
      ap (λ t. f 0 ∷ t)
        (rw (tabulate-add a b (λ k. f (suc k))) (
          ap (λ t. tabulate a (λ k. f (suc k)) ++ t)
            (tabulate_ext b (λ k. f (suc (a + k))) (λ k. f (suc a + k))
              (λ k h. ap f (omega arith))))))

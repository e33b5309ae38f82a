-- ===== src/Prelude/Lists.antt =====
-- Lists measured and indexed by native numbers, under the library's names.
use Prim.Native.Nat.{ℕ, zero, suc, ◌+◌, ◌-◌, ◌≤◌, ◌<◌, min}
use mathlib.Core.Path.{◌≡◌, refl, ap}
use mathlib.Core.List.{List, [], ◌∷◌, ◌++◌, map}
use mathlib.Core.Option.{Option, none, some}
use native.Mathlib.Nat.{zero-add, suc-add}
use native.Mathlib.Omega.{arith}

module _ {ℓ} {A : Type ℓ} where
  abbrev pub length : List A → ℕ
  length [] = 0
  length (x ∷ xs) = suc (length xs)

  abbrev pub get_elem? : List A → ℕ → Option A
  get_elem? [] i = none
  get_elem? (x ∷ xs) zero = some x
  get_elem? (x ∷ xs) (suc i) = get_elem? xs i

  abbrev pub take : ℕ → List A → List A
  take zero xs = []
  take (suc n) [] = []
  take (suc n) (x ∷ xs) = x ∷ take n xs

  abbrev pub drop : ℕ → List A → List A
  drop zero xs = xs
  drop (suc n) [] = []
  drop (suc n) (x ∷ xs) = drop n xs

  pub length-append : (xs ys : List A) → length (xs ++ ys) ≡ length xs + length ys
  length-append [] ys = omega arith
  length-append (x ∷ xs) ys = omega (arith, length-append xs ys)

  pub length-take : (n : ℕ) (xs : List A) → length (take n xs) ≡ min n (length xs)
  length-take zero xs = omega arith
  length-take (suc n) [] = omega arith
  length-take (suc n) (x ∷ xs) = omega (arith, length-take n xs)

  pub length-drop : (n : ℕ) (xs : List A) → length (drop n xs) ≡ length xs - n
  length-drop zero xs = omega arith
  length-drop (suc n) [] = omega arith
  length-drop (suc n) (x ∷ xs) = omega (arith, length-drop n xs)

  pub take_all : (n : ℕ) (xs : List A) → length xs ≤ n → take n xs ≡ xs
  take_all zero [] h = refl
  take_all zero (x ∷ xs) h = absurd (omega arith)
  take_all (suc n) [] h = refl
  take_all (suc n) (x ∷ xs) h = ap (◌∷◌ x) (take_all n xs (omega arith))

  pub take-take : (m n : ℕ) (xs : List A) → m ≤ n → take m (take n xs) ≡ take m xs
  take-take zero n xs h = refl
  take-take (suc m) zero xs h = absurd (omega arith)
  take-take (suc m) (suc n) [] h = refl
  take-take (suc m) (suc n) (x ∷ xs) h = ap (◌∷◌ x) (take-take m n xs (omega arith))

  take-nil : (n : ℕ) → take n [] ≡ []
  take-nil zero = refl
  take-nil (suc n) = refl

  drop-nil : (n : ℕ) → drop n [] ≡ []
  drop-nil zero = refl
  drop-nil (suc n) = refl

  pub drop-drop : (m n : ℕ) (xs : List A) → drop m (drop n xs) ≡ drop (n + m) xs
  drop-drop m zero xs = rw zero-add
  drop-drop m (suc n) [] = rw (drop-nil m, drop-nil (suc n + m))
  drop-drop m (suc n) (x ∷ xs) = rw suc-add (drop-drop m n xs)

  pub drop-take : (m n : ℕ) (xs : List A) → drop m (take (m + n) xs) ≡ take n (drop m xs)
  drop-take zero n xs = rw zero-add
  drop-take (suc m) n [] = rw (take-nil (suc m + n), take-nil n)
  drop-take (suc m) n (x ∷ xs) = rw suc-add (drop-take m n xs)

  pub get_elem?-append_length :
      (xs : List A) (y : A) (ys : List A) → get_elem? (xs ++ y ∷ ys) (length xs) ≡ some y
  get_elem?-append_length [] y ys = refl
  get_elem?-append_length (x ∷ xs) y ys = get_elem?-append_length xs y ys

  pub get_elem?-append_left :
      (xs ys : List A) (i : ℕ) → i < length xs → get_elem? (xs ++ ys) i ≡ get_elem? xs i
  get_elem?-append_left [] ys i h = absurd (omega arith)
  get_elem?-append_left (x ∷ xs) ys zero h = refl
  get_elem?-append_left (x ∷ xs) ys (suc i) h = get_elem?-append_left xs ys i (omega arith)

  pub get_elem?-some : (xs : List A) (i : ℕ) → i < length xs → (a : A) × (get_elem? xs i ≡ some a)
  get_elem?-some [] i h = absurd (omega arith)
  get_elem?-some (x ∷ xs) zero h = (x, refl)
  get_elem?-some (x ∷ xs) (suc i) h = get_elem?-some xs i (omega arith)

module _ {ℓ} {A : Type ℓ} where
  pub get_elem?-take :
      (k : ℕ) (xs : List A) (i : ℕ) → i < k → get_elem? (take k xs) i ≡ get_elem? xs i
  get_elem?-take zero xs i h = absurd (omega arith)
  get_elem?-take (suc k) [] i h = refl
  get_elem?-take (suc k) (x ∷ xs) zero h = refl
  get_elem?-take (suc k) (x ∷ xs) (suc i) h = get_elem?-take k xs i (omega arith)

  pub get_elem?-drop :
      (k : ℕ) (xs : List A) (i : ℕ) → get_elem? (drop k xs) i ≡ get_elem? xs (k + i)
  get_elem?-drop zero xs i = rw zero-add
  get_elem?-drop (suc k) [] i = refl
  get_elem?-drop (suc k) (x ∷ xs) i = rw suc-add (get_elem?-drop k xs i)

pub length-map {ℓ κ} :
    {A : Type ℓ} {B : Type κ} (f : A → B) (xs : List A) → length (map f xs) ≡ length xs
length-map f [] = refl
length-map f (x ∷ xs) = ap suc (length-map f xs)

pub get_elem?-map {ℓ κ} :
    {A : Type ℓ} {B : Type κ} (f : A → B) (xs : List A) (i : ℕ) (x : A)
    → get_elem? xs i ≡ some x
    → get_elem? (map f xs) i ≡ some (f x)
get_elem?-map f [] i x h = cc
get_elem?-map f (y ∷ xs) zero x h = let e : y ≡ x = cc in ap (λ z. some (f z)) e
get_elem?-map f (y ∷ xs) (suc i) x h = get_elem?-map f xs i x h

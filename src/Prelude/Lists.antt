-- ===== src/Prelude/Lists.antt =====
-- Byte arrays and slices are lists measured and indexed by native numbers. The names are the
-- library's.
use Prim.Native.Nat.{ℕ, zero, suc, ◌+◌, ◌-◌, ◌≤◌, min}
use mathlib.Core.Path.{◌≡◌, refl, ap}
use mathlib.Core.List.{List, [], ◌∷◌, ◌++◌, map}
use native.Mathlib.Omega.{arith}

module _ {ℓ} {A : Type ℓ} where
  abbrev pub length : List A → ℕ
  length [] = 0
  length (x ∷ xs) = suc (length xs)

  abbrev pub get_or : List A → ℕ → A → A
  get_or [] i d = d
  get_or (x ∷ xs) zero d = x
  get_or (x ∷ xs) (suc i) d = get_or xs i d

  -- A write out of bounds changes nothing.
  abbrev pub set : List A → ℕ → A → List A
  set [] i v = []
  set (x ∷ xs) zero v = v ∷ xs
  set (x ∷ xs) (suc i) v = x ∷ set xs i v

  abbrev pub take : ℕ → List A → List A
  take zero xs = []
  take (suc n) [] = []
  take (suc n) (x ∷ xs) = x ∷ take n xs

  abbrev pub drop : ℕ → List A → List A
  drop zero xs = xs
  drop (suc n) [] = []
  drop (suc n) (x ∷ xs) = drop n xs

  abbrev pub replicate : ℕ → A → List A
  replicate zero a = []
  replicate (suc n) a = a ∷ replicate n a

  abbrev pub All {κ} : (A → Type κ) → List A → Type κ
  All P [] = Unit {κ}
  All P (x ∷ xs) = P x × All P xs

module _ {ℓ} {A : Type ℓ} where
  pub length-append : (xs ys : List A) → length (xs ++ ys) ≡ length xs + length ys
  length-append [] ys = omega arith
  length-append (x ∷ xs) ys = omega (arith, length-append xs ys)

  pub length-take : (n : ℕ) (xs : List A) → length (take n xs) ≡ min n (length xs)
  length-take zero xs = omega arith
  length-take (suc n) [] = omega arith
  length-take (suc n) (x ∷ xs) = omega (arith, length-take n xs)

  pub length-drop : (n : ℕ) (xs : List A) → length (drop n xs) ≡ length xs - n
  length-drop zero xs = omega arith
  length-drop (suc n) [] = omega arith
  length-drop (suc n) (x ∷ xs) = omega (arith, length-drop n xs)

  pub length-replicate : (n : ℕ) (a : A) → length (replicate n a) ≡ n
  length-replicate zero a = refl
  length-replicate (suc n) a = ap suc (length-replicate n a)

  pub length-set : (xs : List A) (i : ℕ) (v : A) → length (set xs i v) ≡ length xs
  length-set [] i v = refl
  length-set (x ∷ xs) zero v = refl
  length-set (x ∷ xs) (suc i) v = ap suc (length-set xs i v)

  pub length-map {κ} : {B : Type κ} (xs : List A) (f : A → B) → length (map f xs) ≡ length xs
  length-map [] f = refl
  length-map (x ∷ xs) f = ap suc (length-map xs f)

  pub take-append-drop : (n : ℕ) (xs : List A) → take n xs ++ drop n xs ≡ xs
  take-append-drop zero xs = refl
  take-append-drop (suc n) [] = refl
  take-append-drop (suc n) (x ∷ xs) = ap (◌∷◌ x) (take-append-drop n xs)

  -- Splitting an append exactly at its seam. The seam is a variable with an equation.
  pub take-append : (n : ℕ) (xs ys : List A) → n ≡ length xs → take n (xs ++ ys) ≡ xs
  take-append zero [] ys e = refl
  take-append (suc n) [] ys e = absurd (omega arith)
  take-append zero (x ∷ xs) ys e = absurd (omega arith)
  take-append (suc n) (x ∷ xs) ys e = ap (◌∷◌ x) (take-append n xs ys (omega arith))

  pub drop-append : (n : ℕ) (xs ys : List A) → n ≡ length xs → drop n (xs ++ ys) ≡ ys
  drop-append zero [] ys e = refl
  drop-append (suc n) [] ys e = absurd (omega arith)
  drop-append zero (x ∷ xs) ys e = absurd (omega arith)
  drop-append (suc n) (x ∷ xs) ys e = drop-append n xs ys (omega arith)

  pub take_all : (n : ℕ) (xs : List A) → length xs ≤ n → take n xs ≡ xs
  take_all zero [] h = refl
  take_all zero (x ∷ xs) h = absurd (omega arith)
  take_all (suc n) [] h = refl
  take_all (suc n) (x ∷ xs) h = ap (◌∷◌ x) (take_all n xs (omega arith))

  pub drop_all : (n : ℕ) (xs : List A) → length xs ≤ n → drop n xs ≡ []
  drop_all zero [] h = refl
  drop_all zero (x ∷ xs) h = absurd (omega arith)
  drop_all (suc n) [] h = refl
  drop_all (suc n) (x ∷ xs) h = drop_all n xs (omega arith)

  pub drop-drop : (m n k : ℕ) (xs : List A) → k ≡ m + n → drop m (drop n xs) ≡ drop k xs
  drop-drop m zero k xs e = let e' : m ≡ k = omega arith in ap (λ j. drop j xs) e'
  drop-drop zero (suc n) k [] e = let e' : suc n ≡ k = omega arith in ap (λ j. drop j []) e'
  drop-drop (suc m) (suc n) zero [] e = refl
  drop-drop (suc m) (suc n) (suc k) [] e = refl
  drop-drop m (suc n) zero (x ∷ xs) e = absurd (omega arith)
  drop-drop m (suc n) (suc k) (x ∷ xs) e = drop-drop m n k xs (omega arith)

  pub take-take-drop :
      (k n m : ℕ) (xs : List A) → m ≡ k + n → take k xs ++ take n (drop k xs) ≡ take m xs
  take-take-drop zero n m xs e = let e' : n ≡ m = omega arith in ap (λ j. take j xs) e'
  take-take-drop (suc k) zero zero [] e = refl
  take-take-drop (suc k) zero (suc m) [] e = refl
  take-take-drop (suc k) (suc n) zero [] e = absurd (omega arith)
  take-take-drop (suc k) (suc n) (suc m) [] e = refl
  take-take-drop (suc k) n zero (x ∷ xs) e = absurd (omega arith)
  take-take-drop (suc k) n (suc m) (x ∷ xs) e = ap (◌∷◌ x) (take-take-drop k n m xs (omega arith))

  pub take-take : (k n : ℕ) (xs : List A) → k ≤ n → take k (take n xs) ≡ take k xs
  take-take zero n xs h = refl
  take-take (suc k) zero xs h = absurd (omega arith)
  take-take (suc k) (suc n) [] h = refl
  take-take (suc k) (suc n) (x ∷ xs) h = ap (◌∷◌ x) (take-take k n xs (omega arith))

  pub drop-take_append :
      (j n : ℕ) (xs : List A) → j ≤ n → drop j (take n xs) ++ drop n xs ≡ drop j xs
  drop-take_append zero n xs h = take-append-drop n xs
  drop-take_append (suc j) zero xs h = absurd (omega arith)
  drop-take_append (suc j) (suc n) [] h = refl
  drop-take_append (suc j) (suc n) (x ∷ xs) h = drop-take_append j n xs (omega arith)

  pub take-drop-take :
      (off k n : ℕ) (xs : List A)
      → off + k ≤ n
      → take k (drop off (take n xs)) ≡ take k (drop off xs)
  take-drop-take zero k n xs h = take-take k n xs (omega arith)
  take-drop-take (suc off) k zero xs h = absurd (omega arith)
  take-drop-take (suc off) k (suc n) [] h = refl
  take-drop-take (suc off) k (suc n) (x ∷ xs) h = take-drop-take off k n xs (omega arith)

  pub drop-append_past :
      (m n : ℕ) (xs ys : List A) → n ≡ length xs + m → drop n (xs ++ ys) ≡ drop m ys
  drop-append_past m n [] ys e = let e' : n ≡ m = omega arith in ap (λ j. drop j ys) e'
  drop-append_past m zero (x ∷ xs) ys e = absurd (omega arith)
  drop-append_past m (suc n) (x ∷ xs) ys e = drop-append_past m n xs ys (omega arith)

  pub take-drop_append :
      (off k : ℕ) (xs ys : List A)
      → off + k ≤ length xs
      → take k (drop off (xs ++ ys)) ≡ take k (drop off xs)
  take-drop_append zero zero xs ys h = refl
  take-drop_append zero (suc k) [] ys h = absurd (omega arith)
  take-drop_append zero (suc k) (x ∷ xs) ys h =
      ap (◌∷◌ x) (take-drop_append zero k xs ys (omega arith))
  take-drop_append (suc off) k [] ys h = absurd (omega arith)
  take-drop_append (suc off) k (x ∷ xs) ys h = take-drop_append off k xs ys (omega arith)

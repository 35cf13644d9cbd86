-- ===== src/Exfat/Ranges/Extents.antt =====
-- Byte ranges of a disk that are written one after the other and read back.
use vault_pony_core.Prelude.{
  ℕ, ◌+◌, ◌≤◌, ◌≡◌, refl, ap₂, ◌∙◌, ◌⊎◌, List, [], ◌∷◌, ◌++◌, length, take, drop, All, length-take,
  length-drop, take-append-drop, arith,
}
use vault_pony_core.Prelude.Slices.{
  slice, splice, length-splice, slice-splice_self, slice-splice_apart,
}

-- A range is its offset and its length.
abbrev pub Extent : Type 0
Extent = ℕ × ℕ

abbrev pub Fits : ℕ → List Extent → Type 0
Fits n ls = All (λ l. l.0 + l.1 ≤ n) ls

abbrev pub IsApart : Extent → Extent → Type 0
IsApart a b = (a.0 + a.1 ≤ b.0) ⊎ (b.0 + b.1 ≤ a.0)

abbrev pub Pairwise : List Extent → Type 0
Pairwise [] = Unit {0}
Pairwise (l ∷ ls) = All (IsApart l) ls × Pairwise ls

abbrev pub total : List Extent → ℕ
total [] = 0
total (l ∷ ls) = l.1 + total ls

-- The bytes of a buffer into the ranges, and the bytes of the ranges.
abbrev pub put_all : List Extent → List ℕ → List ℕ → List ℕ
put_all [] buf xs = xs
put_all (l ∷ ls) buf xs = put_all ls (drop l.1 buf) (splice l.0 (take l.1 buf) xs)

abbrev pub get_all : List Extent → List ℕ → List ℕ
get_all [] xs = []
get_all (l ∷ ls) xs = slice l.0 l.1 xs ++ get_all ls xs

length-take_fits :
    (l : Extent) (k : ℕ) (buf : List ℕ) → l.1 + k ≤ length buf → length (take l.1 buf) ≡ l.1
length-take_fits l k buf h = omega (arith, length-take l.1 buf)

pub length-put_one :
    (l : Extent) (k : ℕ) (buf xs : List ℕ)
    → l.1 + k ≤ length buf
    → l.0 + l.1 ≤ length xs
    → length (splice l.0 (take l.1 buf) xs) ≡ length xs
length-put_one l k buf xs h f =
    length-splice l.0 (take l.1 buf) xs (omega (arith, length-take_fits l k buf h))

pub Fits-size : (ls : List Extent) (m n : ℕ) → m ≡ n → Fits n ls → Fits m ls
Fits-size [] m n e f = tt
Fits-size (l ∷ ls) m n e (f, fs) = (omega arith, Fits-size ls m n e fs)

pub length-put_all :
    (ls : List Extent) (buf xs : List ℕ)
    → Fits (length xs) ls
    → total ls ≤ length buf
    → length (put_all ls buf xs) ≡ length xs
length-put_all [] buf xs fs h = refl
length-put_all (l ∷ ls) buf xs (f, fs) h =
    let size = length-put_one l (total ls) buf xs h f in
    length-put_all ls (drop l.1 buf) (splice l.0 (take l.1 buf) xs)
      (Fits-size ls _ (length xs) size fs) (omega (arith, length-drop l.1 buf))
    ∙ size

-- A range apart from all others is not touched.
slice-put_all :
    (a : Extent) (ls : List Extent) (buf xs : List ℕ)
    → All (IsApart a) ls
    → Fits (length xs) ls
    → total ls ≤ length buf
    → slice a.0 a.1 (put_all ls buf xs) ≡ slice a.0 a.1 xs
slice-put_all a [] buf xs aps fs h = refl
slice-put_all a (l ∷ ls) buf xs (ap1, aps) (f, fs) h =
    let one = length-take_fits l (total ls) buf h in
    let size = length-put_one l (total ls) buf xs h f in
    slice-put_all a ls (drop l.1 buf) (splice l.0 (take l.1 buf) xs) aps
      (Fits-size ls _ (length xs) size fs) (omega (arith, length-drop l.1 buf))
    ∙ slice-splice_apart a.0 a.1 l.0 (take l.1 buf) xs (omega (arith, one))
        (omega (arith, one, ap1))

-- What is written into ranges that lie apart is read from them.
pub get_all-put_all :
    (ls : List Extent) (buf xs : List ℕ)
    → Pairwise ls
    → Fits (length xs) ls
    → total ls ≡ length buf
    → get_all ls (put_all ls buf xs) ≡ buf
get_all-put_all [] [] xs ps fs h = refl
get_all-put_all [] (b ∷ bs) xs ps fs h = absurd (omega arith)
get_all-put_all (l ∷ ls) buf xs (aps, ps) (f, fs) h =
    let one = length-take_fits l (total ls) buf (omega arith) in
    let size = length-put_one l (total ls) buf xs (omega arith) f in
    let next = splice l.0 (take l.1 buf) xs in
    ap₂ ◌++◌
      (slice-put_all l ls (drop l.1 buf) next aps (Fits-size ls _ (length xs) size fs)
          (omega (arith, length-drop l.1 buf))
        ∙ slice-splice_self l.0 l.1 (take l.1 buf) xs f one)
      (get_all-put_all ls (drop l.1 buf) next ps (Fits-size ls _ (length xs) size fs)
        (omega (arith, length-drop l.1 buf)))
    ∙ take-append-drop l.1 buf

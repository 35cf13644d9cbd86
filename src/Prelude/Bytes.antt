-- ===== src/Prelude/Bytes.antt =====
-- Fixed-width integers and their bytes: `to_be_bytes`, `from_be_bytes`, `from_le_bytes`.
use Prim.Native.Nat.{ℕ, ◌+◌, ◌*◌, ◌/◌, ◌%◌, ◌^◌, ◌<◌}
use mathlib.Core.Path.{◌≡◌, refl, ap₂, ◌∙◌}
use mathlib.Core.Bool.{Bool, true, false, ◌&&◌, ◌||◌}
use mathlib.Core.Logic.{◌↔◌}
use vault_pony_core.Prelude.Tests.{◌==◌}
use mathlib.Core.List.{List, [], ◌∷◌, ◌++◌}
use native.Mathlib.Omega.{arith}
use vault_pony_core.Prelude.Lists.{get_or}

abbrev pub IsByte : ℕ → Type 0
IsByte b = b < 256

abbrev pub be16_bytes : ℕ → List ℕ
be16_bytes v = v / 2 ^ 8 % 256 ∷ v % 256 ∷ []

abbrev pub be32_bytes : ℕ → List ℕ
be32_bytes v = v / 2 ^ 24 % 256 ∷ v / 2 ^ 16 % 256 ∷ v / 2 ^ 8 % 256 ∷ v % 256 ∷ []

abbrev pub be64_bytes : ℕ → List ℕ
be64_bytes v = be32_bytes (v / 2 ^ 32) ++ be32_bytes v

abbrev pub from_be16 : ℕ → ℕ → ℕ
from_be16 a b = a * 2 ^ 8 + b

abbrev pub from_be32 : ℕ → ℕ → ℕ → ℕ → ℕ
from_be32 a b c d = a * 2 ^ 24 + b * 2 ^ 16 + c * 2 ^ 8 + d

abbrev pub from_be64 : ℕ → ℕ → ℕ → ℕ → ℕ → ℕ → ℕ → ℕ → ℕ
from_be64 a b c d e f g h = from_be32 a b c d * 2 ^ 32 + from_be32 e f g h

pub from_be32_bytes :
    (v : ℕ)
    → v < 2 ^ 32
    → from_be32 (v / 2 ^ 24 % 256) (v / 2 ^ 16 % 256) (v / 2 ^ 8 % 256) (v % 256) ≡ v
from_be32_bytes v h = omega arith

pub from_be32_low :
    (v : ℕ)
    → from_be32 (v / 2 ^ 24 % 256) (v / 2 ^ 16 % 256) (v / 2 ^ 8 % 256) (v % 256) ≡ v % 2 ^ 32
from_be32_low v = omega arith

-- `==` on byte arrays, and `contains`.
abbrev pub bytes_eq : List ℕ → List ℕ → Bool
bytes_eq [] [] = true
bytes_eq [] (y ∷ ys) = false
bytes_eq (x ∷ xs) [] = false
bytes_eq (x ∷ xs) (y ∷ ys) = x == y && bytes_eq xs ys

abbrev pub contains : List ℕ → ℕ → Bool
contains [] x = false
contains (y ∷ ys) x = x == y || contains ys x

pub bytes_eq_iff : (xs ys : List ℕ) → (bytes_eq xs ys ≡ true) ↔ (xs ≡ ys)
bytes_eq_iff [] [] = (λ e. refl, λ e. refl)
bytes_eq_iff [] (y ∷ ys) = (λ e. cc, λ e. cc)
bytes_eq_iff (x ∷ xs) [] = (λ e. cc, λ e. cc)
bytes_eq_iff (x ∷ xs) (y ∷ ys) =
    let (to, from) = bytes_eq_iff xs ys in (λ e. ground (arith, to), λ e. ground (arith, from))

-- Integers read from an array at an offset: `be16`, `be32`, `be64` of the header parser and
-- `from_le_bytes`. A read past the end, which panics, gives 0.
abbrev pub be16_at : List ℕ → ℕ → ℕ
be16_at b off = from_be16 (get_or b off 0) (get_or b (off + 1) 0)

abbrev pub be32_at : List ℕ → ℕ → ℕ
be32_at b off =
    from_be32 (get_or b off 0) (get_or b (off + 1) 0) (get_or b (off + 2) 0) (get_or b (off + 3) 0)

abbrev pub be64_at : List ℕ → ℕ → ℕ
be64_at b off = be32_at b off * 2 ^ 32 + be32_at b (off + 4)

pub from_be64_bytes :
    (v : ℕ)
    → v < 2 ^ 64
    → from_be32
            (v / 2 ^ 32 / 2 ^ 24 % 256)
            (v / 2 ^ 32 / 2 ^ 16 % 256)
            (v / 2 ^ 32 / 2 ^ 8 % 256)
            (v / 2 ^ 32 % 256)
          * 2 ^ 32
        + from_be32 (v / 2 ^ 24 % 256) (v / 2 ^ 16 % 256) (v / 2 ^ 8 % 256) (v % 256)
      ≡ v
from_be64_bytes v h =
    ap₂ (λ a b. a * 2 ^ 32 + b) (from_be32_low (v / 2 ^ 32)) (from_be32_low v) ∙ omega arith

-- The same with the least significant byte first: `to_le_bytes`, `from_le_bytes`.
abbrev pub le16_bytes : ℕ → List ℕ
le16_bytes v = v % 256 ∷ v / 2 ^ 8 % 256 ∷ []

abbrev pub le32_bytes : ℕ → List ℕ
le32_bytes v = v % 256 ∷ v / 2 ^ 8 % 256 ∷ v / 2 ^ 16 % 256 ∷ v / 2 ^ 24 % 256 ∷ []

abbrev pub le64_bytes : ℕ → List ℕ
le64_bytes v = le32_bytes v ++ le32_bytes (v / 2 ^ 32)

abbrev pub le16_at : List ℕ → ℕ → ℕ
le16_at b off = from_be16 (get_or b (off + 1) 0) (get_or b off 0)

abbrev pub le32_at : List ℕ → ℕ → ℕ
le32_at b off =
    from_be32 (get_or b (off + 3) 0) (get_or b (off + 2) 0) (get_or b (off + 1) 0) (get_or b off 0)

abbrev pub le64_at : List ℕ → ℕ → ℕ
le64_at b off = le32_at b (off + 4) * 2 ^ 32 + le32_at b off

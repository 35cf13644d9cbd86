-- ===== src/Prelude/Slices.antt =====
-- Slices `xs[off..off + n]` and `xs[off..off + n].copy_from_slice(ys)` on byte arrays.
use Prim.Native.Nat.{ℕ, ◌+◌, ◌-◌, ◌≤◌}
use mathlib.Core.Path.{◌≡◌, sym, ap, ap₂, ◌∙◌}
use mathlib.Core.List.{List, [], ◌∷◌, ◌++◌, append_assoc, append-nil}
use mathlib.Core.Logic.{◌⊎◌, inl, inr}
use native.Mathlib.Omega.{arith}
use vault_pony_core.Prelude.Lists.{
  length, take, drop, length-append, length-take, length-drop, take-append-drop, take-append,
  drop-append, drop-drop, take-take-drop, drop-append_past, take-drop_append, take-take,
  drop-take_append, take-drop-take, drop_all,
}

module _ {ℓ} {A : Type ℓ} where
  -- `xs[off..off + n]`
  abbrev pub slice : ℕ → ℕ → List A → List A
  slice off n xs = take n (drop off xs)

  -- `xs` after `xs[off..off + ys.len()].copy_from_slice(ys)`
  abbrev pub splice : ℕ → List A → List A → List A
  splice off ys xs = take off xs ++ (ys ++ drop (off + length ys) xs)

  pub length-slice : (off n : ℕ) (xs : List A) → off + n ≤ length xs → length (slice off n xs) ≡ n
  length-slice off n xs h = omega (arith, length-take n (drop off xs), length-drop off xs)

  pub length-splice :
      (off : ℕ) (ys xs : List A)
      → off + length ys ≤ length xs
      → length (splice off ys xs) ≡ length xs
  length-splice off ys xs h = omega (
    arith,
    length-append (take off xs) (ys ++ drop (off + length ys) xs),
    length-append ys (drop (off + length ys) xs),
    length-take off xs,
    length-drop (off + length ys) xs,
  )

  -- A splice whose prefix is known: the array is cut as `front ++ old ++ back`.
  pub splice-append :
      (off : ℕ) (front old back ys : List A)
      → off ≡ length front
      → length ys ≡ length old
      → splice off ys (front ++ (old ++ back)) ≡ front ++ (ys ++ back)
  splice-append off front old back ys e e' =
      ap₂ (λ u v. u ++ (ys ++ v)) (take-append off front (old ++ back) e) tail
    where
      tail : drop (off + length ys) (front ++ (old ++ back)) ≡ back
      tail =
          ap (drop (off + length ys)) (sym (append_assoc front old back))
          ∙ drop-append (off + length ys) (front ++ old) back
              (omega (arith, length-append front old))

  pub slice-append :
      (off n : ℕ) (front mid back : List A)
      → off ≡ length front
      → n ≡ length mid
      → slice off n (front ++ (mid ++ back)) ≡ mid
  slice-append off n front mid back e e' =
      ap (take n) (drop-append off front (mid ++ back) e) ∙ take-append n mid back e'

  -- Every array cut at a range that lies in it.
  pub cut : (off n : ℕ) (xs : List A) → xs ≡ take off xs ++ (slice off n xs ++ drop (off + n) xs)
  cut off n xs =
      sym (take-append-drop off xs)
      ∙ ap (λ t. take off xs ++ t)
          (sym (take-append-drop n (drop off xs))
            ∙ ap (λ t. slice off n xs ++ t) (drop-drop n off (off + n) xs (omega arith)))

  -- Two adjacent slices are one.
  pub slice-slice_append :
      (off k n mid m : ℕ) (xs : List A)
      → mid ≡ off + k
      → m ≡ k + n
      → slice off k xs ++ slice mid n xs ≡ slice off m xs
  slice-slice_append off k n mid m xs e e' =
      ap (λ t. slice off k xs ++ take n t) (sym (drop-drop k off mid xs (omega arith)))
      ∙ take-take-drop k n m (drop off xs) e'

  -- A slice of a slice, and a write into a slice, are those of the whole.
  pub slice-slice :
      (off n k m at : ℕ) (xs : List A)
      → k + m ≤ n
      → at ≡ off + k
      → slice k m (slice off n xs) ≡ slice at m xs
  slice-slice off n k m at xs h e =
      take-drop-take k m n (drop off xs) h ∙ ap (take m) (drop-drop k off at xs (omega arith))

  pub splice-splice-slice :
      (off n k at : ℕ) (ys xs : List A)
      → k + length ys ≤ n
      → off + n ≤ length xs
      → at ≡ off + k
      → splice off (splice k ys (slice off n xs)) xs ≡ splice at ys xs
  splice-splice-slice off n k at ys xs h fits e =
      ap (λ t. take off xs ++ (splice k ys (slice off n xs) ++ t)) (ap (λ j. drop j xs) size)
      ∙ ap (λ t. take off xs ++ t) (append_assoc first tail last)
      ∙ sym (append_assoc (take off xs) first (tail ++ last))
      ∙ ap₂ ◌++◌ front
          (append_assoc ys (drop (k + length ys) (slice off n xs)) last ∙ ap (◌++◌ ys) back)
    where
      first : List A
      first = take k (slice off n xs)

      tail : List A
      tail = ys ++ drop (k + length ys) (slice off n xs)

      last : List A
      last = drop (off + n) xs

      size : off + length (splice k ys (slice off n xs)) ≡ off + n
      size = omega (arith, length-splice k ys (slice off n xs), length-slice off n xs fits)

      front : take off xs ++ take k (slice off n xs) ≡ take at xs
      front =
          ap (◌++◌ (take off xs)) (take-take k n (drop off xs) (omega arith))
          ∙ take-take-drop off k at xs e

      back : drop (k + length ys) (slice off n xs) ++ drop (off + n) xs ≡ drop (at + length ys) xs
      back =
          ap (◌++◌ (drop (k + length ys) (slice off n xs)))
            (sym (drop-drop n off (off + n) xs (omega arith)))
          ∙ drop-take_append (k + length ys) n (drop off xs) h
          ∙ drop-drop (k + length ys) off (at + length ys) xs (omega arith)

  pub slice-splice_self :
      (off n : ℕ) (ys xs : List A)
      → off + n ≤ length xs
      → length ys ≡ n
      → slice off n (splice off ys xs) ≡ ys
  slice-splice_self off n ys xs h e =
      slice-append off n (take off xs) ys (drop (off + length ys) xs)
        (omega (arith, length-take off xs)) (sym e)

  pub slice-splice :
      (off n k at : ℕ) (ys xs : List A)
      → k + length ys ≤ n
      → off + n ≤ length xs
      → at ≡ off + k
      → slice off n (splice at ys xs) ≡ splice k ys (slice off n xs)
  slice-splice off n k at ys xs h fits e =
      ap (slice off n) (sym (splice-splice-slice off n k at ys xs h fits e))
      ∙ slice-splice_self off n (splice k ys (slice off n xs)) xs fits
          (omega (arith, length-splice k ys (slice off n xs), length-slice off n xs fits))

  -- A write over the whole array.
  pub splice_whole : (ys xs : List A) → length ys ≡ length xs → splice 0 ys xs ≡ ys
  splice_whole ys xs e = ap (◌++◌ ys) (drop_all (0 + length ys) xs (omega arith)) ∙ append-nil ys

  pub splice_empty : (off : ℕ) (ys xs : List A) → length ys ≡ 0 → splice off ys xs ≡ xs
  splice_empty off [] xs e =
      let e' : off + 0 ≡ off = omega arith in
      ap (λ j. take off xs ++ drop j xs) e' ∙ take-append-drop off xs
  splice_empty off (y ∷ ys) xs e = absurd (omega arith)

  -- A write leaves every slice alone that it does not meet.
  pub slice-splice_apart :
      (off n at : ℕ) (ys xs : List A)
      → at + length ys ≤ length xs
      → (at + length ys ≤ off) ⊎ (off + n ≤ at)
      → slice off n (splice at ys xs) ≡ slice off n xs
  slice-splice_apart off n at ys xs h (inl before) = ap (take n) (
      ap (drop off) (sym (append_assoc (take at xs) ys (drop (at + length ys) xs)))
      ∙ drop-append_past (off - (at + length ys)) off (take at xs ++ ys) (drop (at + length ys) xs)
          (omega (arith, length-append (take at xs) ys, length-take at xs))
      ∙ drop-drop (off - (at + length ys)) (at + length ys) off xs (omega arith))
  slice-splice_apart off n at ys xs h (inr behind) =
      take-drop_append off n (take at xs) (ys ++ drop (at + length ys) xs)
        (omega (arith, length-take at xs))
      ∙ take-drop-take off n at xs behind

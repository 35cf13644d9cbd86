-- ===== src/Exfat/Sets/Names.antt =====
-- The name entries that core/norse-exfat/src/write.rs builds, read back.
use vault_pony_core.Prelude.{
  ℕ, zero, suc, ◌+◌, ◌-◌, ◌*◌, ◌<◌, ◌≤◌, ◌≡◌, refl, sym, ap, ap₂, ◌∙◌, List, [], ◌∷◌, ◌++◌, map,
  length, take, drop, replicate, All, append_assoc, take_all, drop_all, length-take, length-drop,
  take-append-drop, take-append, arith,
}
use vault_pony_core.Prelude.Words.{div_ceil}
use native.Mathlib.Decide.{dec_le}
use vault_pony_core.Exfat.Upcase.{words_of}
use vault_pony_core.Exfat.Dir.{chunks, name_units}
use vault_pony_core.Exfat.Sets.{unit_bytes, name_entry, name_entries}

words_of-append :
    (us bs : List ℕ) → All (λ u. u < 65_536) us → words_of (unit_bytes us ++ bs) ≡ us ++ words_of bs
unfolding unit_bytes words_of
words_of-append [] bs h = refl
words_of-append (u ∷ us) bs (h, hs) = ap₂ ◌∷◌ (omega arith) (words_of-append us bs hs)

words_of-zeros : (k n : ℕ) → n ≡ 2 * k → words_of (replicate n 0) ≡ replicate k 0
unfolding words_of
words_of-zeros zero zero e = refl
words_of-zeros zero (suc n) e = absurd (omega arith)
words_of-zeros (suc k) zero e = absurd (omega arith)
words_of-zeros (suc k) (suc zero) e = absurd (omega arith)
words_of-zeros (suc k) (suc (suc n)) e = ap (λ t. 0 ∷ t) (words_of-zeros k n (omega arith))

All-take : (n : ℕ) (xs : List ℕ) → All (λ u. u < 65_536) xs → All (λ u. u < 65_536) (take n xs)
All-take zero xs h = tt
All-take (suc n) [] h = tt
All-take (suc n) (x ∷ xs) (h, hs) = (h, All-take n xs hs)

All-drop : (n : ℕ) (xs : List ℕ) → All (λ u. u < 65_536) xs → All (λ u. u < 65_536) (drop n xs)
All-drop zero xs h = h
All-drop (suc n) [] h = tt
All-drop (suc n) (x ∷ xs) (h, hs) = All-drop n xs hs

replicate-append :
    (m n k : ℕ) → k ≡ m + n → ◌++◌ {A = ℕ} (replicate m 0) (replicate n 0) ≡ replicate k 0
replicate-append zero n k e = let e' : n ≡ k = omega arith in ap (λ j. replicate j 0) e'
replicate-append (suc m) n zero e = absurd (omega arith)
replicate-append (suc m) n (suc k) e = ap (λ t. 0 ∷ t) (replicate-append m n k (omega arith))

-- The units of one entry, filled up to 15 with zeros.
name_units-name_entry :
    (us : List ℕ) (es : List (List ℕ))
    → length us ≤ 15
    → All (λ u. u < 65_536) us
    → name_units (name_entry us ∷ es) ≡ us ++ (replicate (15 - length us) 0 ++ name_units es)
unfolding name_units name_entry
name_units-name_entry us es h units =
    ap (λ t. t ++ name_units es)
      (words_of-append us (replicate (30 - 2 * length us) 0) units
        ∙ ap (λ t. us ++ t) (words_of-zeros (15 - length us) (30 - 2 * length us) (omega arith)))
    ∙ append_assoc us (replicate (15 - length us) 0) (name_units es)

-- The entries of a name hold its units, and zeros after them.
name_units-chunks :
    (n : ℕ) (xs : List ℕ)
    → length xs ≤ 15 * n
    → All (λ u. u < 65_536) xs
    → (pad : ℕ) × (name_units (map name_entry (chunks 15 n xs)) ≡ xs ++ replicate pad 0)
unfolding name_units chunks
name_units-chunks zero [] h units = (0, refl)
name_units-chunks zero (x ∷ xs) h units = absurd (omega arith)
name_units-chunks (suc n) xs h units =
    let (pad, rest) =
      name_units-chunks n (drop 15 xs) (omega (arith, length-drop 15 xs)) (All-drop 15 xs units) in
    let first =
      name_units-name_entry (take 15 xs) (map name_entry (chunks 15 n (drop 15 xs)))
        (omega (arith, length-take 15 xs)) (All-take 15 xs units) in
    elim (dec_le 15 (length xs)) [
      | yes long ↦ (
        pad,
        let full : 15 - length (take 15 xs) ≡ 0 = omega (arith, length-take 15 xs) in
            first
            ∙ ap₂ (λ k t. take 15 xs ++ (replicate k 0 ++ t)) full rest
            ∙ sym (append_assoc (take 15 xs) (drop 15 xs) (replicate pad 0))
            ∙ ap (λ t. t ++ replicate pad 0) (take-append-drop 15 xs),
      )
      | no short ↦ (
        15 - length (take 15 xs) + pad,
        first
            ∙ ap (λ t. take 15 xs ++ (replicate (15 - length (take 15 xs)) 0 ++ t))
                (rest ∙ ap (λ t. t ++ replicate pad 0) (drop_all 15 xs (omega arith)))
            ∙ ap₂ ◌++◌ (take_all 15 xs (omega arith))
                (replicate-append (15 - length (take 15 xs)) pad _ refl),
      )
    ]

-- A name is read back from its entries.
pub take-name_units :
    (name : List ℕ)
    → All (λ u. u < 65_536) name
    → take (length name) (name_units (name_entries name)) ≡ name
unfolding name_entries
take-name_units name units =
    let (pad, e) = name_units-chunks (div_ceil (length name) 15) name (ground arith) units in
    ap (take (length name)) e ∙ take-append (length name) name (replicate pad 0) refl

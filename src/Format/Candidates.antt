-- ===== src/Format/Candidates.antt =====
-- core/vc-format/src/candidates.rs: the search space of an unlock, in the order of trial.
use vault_pony_core.Prelude.{
  ℕ, zero, suc, subst, ◌+◌, ◌*◌, ◌≡◌, refl, ap, List, [], ◌∷◌, ◌++◌, length, length-append, arith,
}
use vault_pony_core.Types.Header.{HeaderPosition}
use vault_pony_core.Types.Registry.{EncryptionScheme, encryption_schemes, Prf, prfs}

pub record Candidate : Type 0 where
  pub prf : Prf
  pub scheme : EncryptionScheme
  pub position : HeaderPosition

-- The three nested loops, the innermost first.
over_schemes : HeaderPosition → Prf → List EncryptionScheme → List Candidate
over_schemes position prf [] = []
over_schemes position prf (s ∷ ss) =
    record { prf = prf; scheme = s; position = position } ∷ over_schemes position prf ss

over_prfs : HeaderPosition → List Prf → List Candidate
unfolding over_schemes
over_prfs position [] = []
over_prfs position (prf ∷ ps) =
    over_schemes position prf encryption_schemes ++ over_prfs position ps

pub ordered_candidates : List HeaderPosition → List Candidate
unfolding over_prfs
ordered_candidates [] = []
ordered_candidates (position ∷ positions) = over_prfs position prfs ++ ordered_candidates positions

module _ {A : Type 0} where
  -- The place of an element, by recursion.
  abbrev pub IsAt : ℕ → A → List A → Type 0
  IsAt n a [] = ⊥
  IsAt zero a (x ∷ xs) = (a ≡ x)
  IsAt (suc n) a (x ∷ xs) = IsAt n a xs

  IsAt-append_front : (n : ℕ) (a : A) (xs ys : List A) → IsAt n a xs → IsAt n a (xs ++ ys)
  IsAt-append_front n a [] ys h = absurd h
  IsAt-append_front zero a (x ∷ xs) ys h = h
  IsAt-append_front (suc n) a (x ∷ xs) ys h = IsAt-append_front n a xs ys h

  IsAt-append_moved : (n m : ℕ) (a : A) (xs ys : List A) → n ≡ m → IsAt n a xs → IsAt m a (xs ++ ys)
  IsAt-append_moved n m a xs ys e h =
      subst (λ k. IsAt k a (xs ++ ys)) e (IsAt-append_front n a xs ys h)

  IsAt-append_back :
      (n m : ℕ) (a : A) (xs ys : List A) → m ≡ length xs + n → IsAt n a ys → IsAt m a (xs ++ ys)
  IsAt-append_back n m a [] ys e h = subst (λ k. IsAt k a ys) (omega arith) h
  IsAt-append_back n zero a (x ∷ xs) ys e h = absurd (omega arith)
  IsAt-append_back n (suc m) a (x ∷ xs) ys e h = IsAt-append_back n m a xs ys (omega arith) h

IsAt-over_schemes :
    (k : ℕ) (pos : HeaderPosition) (prf : Prf) (s : EncryptionScheme) (ss : List EncryptionScheme)
    → IsAt k s ss
    → IsAt k (record { prf = prf; scheme = s; position = pos }) (over_schemes pos prf ss)
unfolding over_schemes
IsAt-over_schemes k pos prf s [] h = absurd h
IsAt-over_schemes zero pos prf s (x ∷ ss) h =
    λ i. record { prf = prf; scheme = h i; position = pos }
IsAt-over_schemes (suc k) pos prf s (x ∷ ss) h = IsAt-over_schemes k pos prf s ss h

length-over_schemes :
    (pos : HeaderPosition) (prf : Prf) (ss : List EncryptionScheme)
    → length (over_schemes pos prf ss) ≡ length ss
unfolding over_schemes
length-over_schemes pos prf [] = refl
length-over_schemes pos prf (s ∷ ss) = ap suc (length-over_schemes pos prf ss)

length-over_prfs :
    (pos : HeaderPosition) (ps : List Prf) → length (over_prfs pos ps) ≡ length ps * 15
unfolding over_prfs
length-over_prfs pos [] = refl
length-over_prfs pos (prf ∷ ps) = omega (
  arith,
  length-append (over_schemes pos prf encryption_schemes) (over_prfs pos ps),
  length-over_schemes pos prf encryption_schemes,
  length-over_prfs pos ps,
)

IsAt-over_prfs :
    (j k : ℕ) (pos : HeaderPosition) (prf : Prf) (s : EncryptionScheme) (ps : List Prf)
    → IsAt j prf ps
    → IsAt k s encryption_schemes
    → IsAt (j * 15 + k) (record { prf = prf; scheme = s; position = pos }) (over_prfs pos ps)
unfolding over_prfs
IsAt-over_prfs j k pos prf s [] h g = absurd h
IsAt-over_prfs zero k pos prf s (x ∷ ps) h g =
    IsAt-append_moved k (0 * 15 + k) _ (over_schemes pos x encryption_schemes) (over_prfs pos ps)
      (omega arith)
      (subst
        (λ (q : Prf).
          IsAt k (record { prf = prf; scheme = s; position = pos })
            (over_schemes pos q encryption_schemes))
        h (IsAt-over_schemes k pos prf s encryption_schemes g))
IsAt-over_prfs (suc j) k pos prf s (x ∷ ps) h g =
    IsAt-append_back (j * 15 + k) (suc j * 15 + k) _ (over_schemes pos x encryption_schemes)
      (over_prfs pos ps) (omega (arith, length-over_schemes pos x encryption_schemes))
      (IsAt-over_prfs j k pos prf s ps h g)

-- The candidates are all triples of a position, a PRF and a scheme, in that order of significance:
-- the j-th PRF and the k-th scheme at the i-th position stand at place 75 * i + 15 * j + k, and there
-- are 75 for each position.
pub ordered_candidates_lem :
    (i j k : ℕ) (pos : HeaderPosition) (prf : Prf) (s : EncryptionScheme)
    (positions : List HeaderPosition)
    → IsAt i pos positions
    → IsAt j prf prfs
    → IsAt k s encryption_schemes
    → IsAt
        (i * 75 + (j * 15 + k))
        (record { prf = prf; scheme = s; position = pos })
        (ordered_candidates positions)
      × (length (ordered_candidates positions) ≡ length positions * 75)
unfolding ordered_candidates
ordered_candidates_lem i j k pos prf s positions at_pos at_prf at_scheme =
    (place i positions at_pos, count positions)
  where
    count : (ps : List HeaderPosition) → length (ordered_candidates ps) ≡ length ps * 75
    count [] = refl
    count (p ∷ ps) = omega (
      arith,
      length-append (over_prfs p prfs) (ordered_candidates ps),
      length-over_prfs p prfs,
      count ps,
    )

    place :
        (n : ℕ) (ps : List HeaderPosition)
        → IsAt n pos ps
        → IsAt
            (n * 75 + (j * 15 + k))
            (record { prf = prf; scheme = s; position = pos })
            (ordered_candidates ps)
    place n [] h = absurd h
    place zero (p ∷ ps) h =
        IsAt-append_moved (j * 15 + k) (0 * 75 + (j * 15 + k)) _ (over_prfs p prfs)
          (ordered_candidates ps) (omega arith)
          (subst
            (λ (q : HeaderPosition).
              IsAt (j * 15 + k) (record { prf = prf; scheme = s; position = pos })
                (over_prfs q prfs))
            h (IsAt-over_prfs j k pos prf s prfs at_prf at_scheme))
    place (suc n) (p ∷ ps) h =
        IsAt-append_back (n * 75 + (j * 15 + k)) (suc n * 75 + (j * 15 + k)) _ (over_prfs p prfs)
          (ordered_candidates ps) (omega (arith, length-over_prfs p prfs)) (place n ps h)

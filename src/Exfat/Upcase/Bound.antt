-- ===== src/Exfat/Upcase/Bound.antt =====
-- The table that core/norse-exfat/src/upcase.rs decompresses has at most one entry more than there are
-- units, and maps units to units.
use vault_pony_core.Prelude.{
  ℕ, zero, suc, ◌+◌, ◌-◌, ◌≤◌, ◌<◌, ◌≡◌, sym, refl, ◌⊎◌, inl, inr, Bool, true, false, List, [], ◌∷◌,
  ◌++◌, length, length-append, ltb, ◌==◌, if◌then◌else◌, All, get_or, arith,
}
use vault_pony_core.Prelude.Results.{ok, err, ok_injective}
use vault_pony_core.Exfat.Error.{ExfatResult, ExfatError}
use vault_pony_core.Exfat.Upcase.{UpcaseTable, map_unit, identity_run, decompress}

-- Sixteen bits.
abbrev IsUnit : ℕ → Type 0
IsUnit u = u < 65_536

-- A table of so many entries, each a unit.
abbrev Fits : ℕ → List ℕ → Type 0
Fits n t = (length t ≤ n) × All IsUnit t

All-append : (xs ys : List ℕ) → All IsUnit xs → All IsUnit ys → All IsUnit (xs ++ ys)
All-append [] ys h k = k
All-append (x ∷ xs) ys (h, hs) k = (h, All-append xs ys hs k)

get_or-IsUnit : (xs : List ℕ) (i u : ℕ) → All IsUnit xs → IsUnit u → IsUnit (get_or xs i u)
get_or-IsUnit [] i u h k = k
get_or-IsUnit (x ∷ xs) zero u (h, hs) k = h
get_or-IsUnit (x ∷ xs) (suc i) u (h, hs) k = get_or-IsUnit xs i u hs k

-- What the branches of a run leave, once it is not refused.
run_step :
    (b : Bool) (x : ExfatError) (cp : ℕ) (r : ExfatResult (List ℕ)) (l : List ℕ)
    → (if b then err x else elim r [ ok l ↦ ok (cp ∷ l) | err e ↦ err e ]) ≡ ok l
    → (b ≡ false) × ((k : List ℕ) × (r ≡ ok k) × (cp ∷ k ≡ l))
run_step true x cp r l e = absurd (cc)
run_step false x cp (ok k) l e = (refl, (k, refl, ok_injective e))
run_step false x cp (err y) l e = absurd (cc)

-- A run that is not refused ends below 2 ^ 16.
identity_run-Fits :
    (cp n m : ℕ) (l : List ℕ) → identity_run cp n ≡ ok l → cp + m ≡ 65_536 → Fits m l
unfolding identity_run
identity_run-Fits cp zero m l e h = rw (sym (ok_injective e)) (omega arith, tt)
identity_run-Fits cp (suc n) m l e h =
    let (b, (k, run, made)) = run_step _ _ cp (identity_run (cp + 1) n) l e in
    let low : cp < 65_536 = ground arith in
    let (size, units) = identity_run-Fits (cp + 1) n (m - 1) k run (omega arith) in
    rw (sym made) (omega arith, (low, units))

-- A run or a unit is added to a table that still fits.
Fits-append : (t l : List ℕ) (n m k : ℕ) → Fits n t → Fits m l → n + m ≤ k → Fits k (t ++ l)
Fits-append t l n m k (h, ht) (h', hl) e = (omega (arith, length-append t l), All-append t l ht hl)

-- The last word: an entry, or the mark of a run that has no length.
last_step :
    (b b' : Bool) (x : ExfatError) (t u v : List ℕ)
    → ◌≡◌ {A = ExfatResult (List ℕ)} (if b then ok u else if b' then err x else ok v) (ok t)
    → (u ≡ t) ⊎ ((b' ≡ false) × (v ≡ t))
last_step true b' x t u v e = inl (ok_injective e)
last_step false true x t u v e = absurd (cc)
last_step false false x t u v e = inr (refl, ok_injective e)

-- Any other word: a run that is not refused, or an entry.
word_step :
    (b b' : Bool) (x : ExfatError) (r lit : ExfatResult (List ℕ))
    (f : List ℕ → ExfatResult (List ℕ)) (t : List ℕ)
    → (if b then elim r [ ok l ↦ f l | err e ↦ err e ] else if b' then err x else lit) ≡ ok t
    → ((l : List ℕ) × (r ≡ ok l) × (f l ≡ ok t)) ⊎ ((b' ≡ false) × (lit ≡ ok t))
word_step true b' x (ok l) lit f t e = inl (l, refl, e)
word_step true b' x (err y) lit f t e = absurd (cc)
word_step false true x r lit f t e = absurd (cc)
word_step false false x r lit f t e = inr (refl, e)

-- One entry fits a table that the test let through.
Fits-snoc : (t : List ℕ) (u n k : ℕ) → Fits n t → IsUnit u → n < k → Fits k (t ++ u ∷ [])
Fits-snoc t u n k h unit e = Fits-append t (u ∷ []) n 1 k h (refl_le, (unit, tt)) (omega arith)
  where
    refl_le : 1 ≤ 1
    refl_le = omega arith

decompress-Fits :
    (table ws : List ℕ) (t : UpcaseTable)
    → Fits 65_536 table
    → All IsUnit ws
    → decompress table ws ≡ ok t
    → Fits 65_537 t
unfolding decompress
decompress-Fits table [] t (h, units) words e = rw (sym (ok_injective e)) (omega arith, units)
decompress-Fits table (w ∷ []) t h words e = elim (last_step _ _ _ t _ _ e) [
  | inl made ↦ rw (sym made) (Fits-snoc table 65_535 65_536 65_537 h (omega arith) (omega arith))
  | inr (b, made) ↦ rw (sym made) (Fits-snoc table w 65_536 65_537 h words.0 (omega arith))
]
decompress-Fits table (w ∷ count ∷ ws) t h words e =
    elim (word_step (w == 0xFFFF) (ltb 0xFFFF (length table)) _ (identity_run (length table) count)
      (decompress (table ++ w ∷ []) (count ∷ ws)) (λ l. decompress (table ++ l) ws) t e) [
        | inl (l, run, more) ↦
            decompress-Fits (table ++ l) ws t
              (Fits-append table l (length table) (65_536 - length table) 65_536 (omega arith, h.1)
                (identity_run-Fits (length table) count _ l run (omega (arith, h.0)))
                (omega (arith, h.0)))
              words.1.1 more
        | inr (b, more) ↦
            decompress-Fits (table ++ w ∷ []) (count ∷ ws) t
              (Fits-snoc table w (length table) 65_536 (omega arith, h.1) words.0 (ground arith))
              words.1 more
      ]

-- A table that is decompressed from 16-bit words has at most 65,537 entries, and maps every 16-bit
-- unit to a 16-bit unit.
pub map_unit-decompress :
    (ws : List ℕ) (t : UpcaseTable) (u : ℕ)
    → All IsUnit ws
    → decompress [] ws ≡ ok t
    → IsUnit u
    → (length t ≤ 65_537) × IsUnit (map_unit t u)
unfolding map_unit
map_unit-decompress ws t u words e unit =
    let (size, units) = decompress-Fits [] ws t (omega arith, tt) words e in
    (size, get_or-IsUnit t u u units unit)

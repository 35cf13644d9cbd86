-- ===== src/Exfat/Ranges/Cover.antt =====
-- The loops of core/norse-exfat/src over the bytes of a file end, and their rounds make up the range.
use vault_pony_core.Prelude.{
  ℕ, zero, suc, ◌+◌, ◌-◌, ◌%◌, ◌≤◌, ◌<◌, ◌≡◌, refl, inl, inr, List, [], ◌∷◌, ◌==◌, min, Bool-cases,
  arith,
}
use vault_pony_core.Prelude.Words.{add64, u64_mod}
use vault_pony_core.Exfat.Ranges.{pieces}
use native.Mathlib.Nat.{mod-lt, mod-eq_of_lt}

-- The pieces follow each other from `pos` on, none is empty or leaves its cluster of `cb` bytes, and
-- together they have `left` bytes.
abbrev pub Covers : (cb pos left : ℕ) → List (ℕ × ℕ) → Type 0
Covers cb pos left [] = left ≡ 0
Covers cb pos left ((p, n) ∷ ps) =
    (p ≡ pos) × (1 ≤ n) × (n ≤ left) × (p % cb + n ≤ cb) × Covers cb (pos + n) (left - n) ps

-- With fuel for each byte a loop over a range of less than 2 ^ 64 does not stop early: its pieces cover
-- the range.
pub pieces-Covers :
    (cb fuel pos left : ℕ)
    → 1 ≤ cb
    → left ≤ fuel
    → pos + left < u64_mod
    → Covers cb pos left (pieces cb fuel pos left)
unfolding pieces
pieces-Covers cb zero pos left c h b = omega arith
pieces-Covers cb (suc fuel) pos left c h b = elim (Bool-cases (left == 0)) [
  | inl e ↦ rw e (ground arith)
  | inr e ↦
      let inside = mod-lt pos c in
      let n : ℕ = min (cb - pos % cb) left in
      let next : add64 pos n ≡ pos + n = mod-eq_of_lt (omega arith) in
      rw (e, next)
        (
          refl,
          ground arith,
          omega arith,
          omega arith,
          pieces-Covers cb fuel (pos + n) (left - n) c (ground arith) (omega arith),
        )
]

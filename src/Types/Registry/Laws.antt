-- ===== src/Types/Registry/Laws.antt =====
-- The iteration schedule of core/vc-types/src/registry.rs.
use vault_pony_core.Prelude.{
  ℕ, ◌+◌, ◌*◌, ◌≤◌, ◌<◌, ◌≡◌, ◌≢◌, ◌⊎◌, inl, inr, ◌==◌, Bool-cases, arith,
}
use vault_pony_core.Types.Registry.{Prf, iterations_for_pim}

-- A PIM of 0 gives the default count of the PRF; any PIM from 1 to 4_294_952 gives
-- 15000 + 1000 * PIM exactly, with no 32-bit wrap, and so at least 16000 rounds.
pub iterations_for_pim_lem :
    (prf : Prf) (pim : ℕ)
    → pim ≤ 4_294_952
    → ((pim ≡ 0) × (iterations_for_pim prf pim ≡ prf.default_iterations))
      ⊎ ((pim ≢ 0)
          × (iterations_for_pim prf pim ≡ 15_000 + 1_000 * pim)
          × (16_000 ≤ iterations_for_pim prf pim))
unfolding iterations_for_pim
iterations_for_pim_lem prf pim h = elim (Bool-cases (pim == 0)) [
  | inl e ↦ inl (ground arith, ground arith)
  | inr e ↦ inr (ground arith, ground arith, ground arith)
]

-- Every PIM from 4_294_953 up to 4_294_967 wraps the 32-bit count: the schedule then falls below
-- 16000 rounds, the count of PIM 1.
pub iterations_for_pim_wraps :
    (prf : Prf) (pim : ℕ) → 4_294_953 ≤ pim → pim ≤ 4_294_967 → iterations_for_pim prf pim < 16_000
unfolding iterations_for_pim
iterations_for_pim_wraps prf pim lo hi = ground arith

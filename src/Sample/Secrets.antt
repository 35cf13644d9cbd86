-- ===== src/Sample/Secrets.antt =====
-- Tests of key material, keyfiles and the iteration schedule.
use mathlib.Core.List.{Permᴰ}
use vault_pony_core.Prelude.{
  ℕ, ◌+◌, ◌-◌, ◌*◌, ◌<◌, ◌≤◌, max, ◌++◌, ◌≡◌, ◌≢◌, ◌⊎◌, refl, List, [], ◌∷◌, length, drop,
  replicate, All, arith,
}
use vault_pony_core.Prelude.Bytes.{IsByte}
use vault_pony_core.Types.Registry.{
  EncryptionScheme, scheme, aes, serpent, Prf, prf_of, iterations_for_pim,
}
use vault_pony_core.Types.Registry.Laws.{iterations_for_pim_lem, iterations_for_pim_wraps}
use vault_pony_core.Types.Header.{primary, hidden}
use vault_pony_core.Format.Candidates.{ordered_candidates, IsAt, ordered_candidates_lem}
use vault_pony_core.Crypto.Xts
use vault_pony_core.Crypto.Xts.Keys.{NewSpec, new_lem}
use vault_pony_core.Crypto.Keyfile.{pool_size, apply_keyfiles}
use vault_pony_core.Crypto.Keyfile.Order.{apply_keyfiles-perm}
use vault_pony_core.Crypto.Keyfile.Secret.{apply_keyfiles_shape, apply_keyfiles-empty}

abbrev cascade : EncryptionScheme
cascade = scheme "AES-Serpent" (aes ∷ serpent ∷ [])

new_lem_example : NewSpec cascade (replicate 128 9) (Xts.new cascade (replicate 128 9))
new_lem_example = new_lem cascade (replicate 128 9)

abbrev password : List ℕ
password = 112 ∷ 119 ∷ []

password-IsByte : All IsByte password
password-IsByte = (omega arith, (omega arith, tt))

apply_keyfiles-perm_example :
    apply_keyfiles password ((1 ∷ []) ∷ (2 ∷ 3 ∷ []) ∷ [])
    ≡ apply_keyfiles password ((2 ∷ 3 ∷ []) ∷ (1 ∷ []) ∷ [])
apply_keyfiles-perm_example =
    apply_keyfiles-perm password ((1 ∷ []) ∷ (2 ∷ 3 ∷ []) ∷ []) ((2 ∷ 3 ∷ []) ∷ (1 ∷ []) ∷ [])
      ∣ Permᴰ.swap refl refl ∣₁

apply_keyfiles_shape_example :
    (length (apply_keyfiles password ((5 ∷ []) ∷ [])) ≡ max (length password) pool_size)
    × (drop pool_size (apply_keyfiles password ((5 ∷ []) ∷ [])) ≡ drop pool_size password)
    × All IsByte (apply_keyfiles password ((5 ∷ []) ∷ []))
apply_keyfiles_shape_example = apply_keyfiles_shape password (5 ∷ []) [] password-IsByte

apply_keyfiles-empty_example :
    apply_keyfiles password ([] ∷ [])
    ≡ password ++ replicate (max (length password) pool_size - length password) 0
apply_keyfiles-empty_example = apply_keyfiles-empty password password-IsByte

abbrev pim : ℕ
pim = 485

abbrev sha : Prf
sha = prf_of "SHA-512" 0

iterations_for_pim_lem_example :
    ((pim ≡ 0) × (iterations_for_pim sha pim ≡ sha.default_iterations))
    ⊎ ((pim ≢ 0)
        × (iterations_for_pim sha pim ≡ 15_000 + 1_000 * pim)
        × (16_000 ≤ iterations_for_pim sha pim))
iterations_for_pim_lem_example = iterations_for_pim_lem sha pim (omega arith)

iterations_for_pim_wraps_example : iterations_for_pim sha 4_294_953 < 16_000
iterations_for_pim_wraps_example =
    iterations_for_pim_wraps sha 4_294_953 (omega arith) (omega arith)

-- The second position, the third PRF, the second scheme.
ordered_candidates_lem_example :
    IsAt 106
      (record {
        prf = prf_of "BLAKE2s-256" 2;
        scheme = scheme "Serpent" (serpent ∷ []);
        position = hidden;
      })
      (ordered_candidates (primary ∷ hidden ∷ []))
    × (length (ordered_candidates (primary ∷ hidden ∷ [])) ≡ 150)
ordered_candidates_lem_example =
    ordered_candidates_lem 1 2 1 hidden (prf_of "BLAKE2s-256" 2) (scheme "Serpent" (serpent ∷ []))
      (primary ∷ hidden ∷ []) refl refl refl

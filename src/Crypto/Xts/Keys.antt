-- ===== src/Crypto/Xts/Keys.antt =====
-- How `SchemeXts::new` of core/vc-crypto/src/xts.rs cuts the key material.
use vault_pony_core.Prelude.{
  true, ℕ, suc, ◌+◌, ◌*◌, ◌≡◌, ◌≢◌, refl, ap, ap₂, ◌∙◌, Bool-cases, inl, inr, List, [], ◌∷◌, ◌++◌,
  length, arith, take_all, ==_iff, ◌==◌, All,
}
use vault_pony_core.Prelude.Slices.{slice, length-slice, slice-slice_append}
use vault_pony_core.Types.Error.{VcResult, ok, err}
use vault_pony_core.Types.Registry.{Cipher, EncryptionScheme, key_bytes}
use vault_pony_core.Crypto.Xts.{LayerXts, SchemeXts, layers_from, new, key_len}

abbrev pub primaries : List LayerXts → List ℕ
primaries [] = []
primaries (l ∷ ls) = l.primary ++ primaries ls

abbrev pub secondaries : List LayerXts → List ℕ
secondaries [] = []
secondaries (l ∷ ls) = l.secondary ++ secondaries ls

abbrev pub ciphers : List LayerXts → List Cipher
ciphers [] = []
ciphers (l ∷ ls) = l.cipher ∷ ciphers ls

abbrev KeysAreWhole : LayerXts → Type 0
KeysAreWhole l = (length l.primary ≡ key_len) × (length l.secondary ≡ key_len)

module _ (m : List ℕ) (n : ℕ) (whole : length m ≡ n * 64) where
  primaries-layers_from :
      (i : ℕ) (cs : List Cipher)
      → i + length cs ≡ n
      → primaries (layers_from m n i cs) ≡ slice (i * key_len) (length cs * key_len) m
  unfolding layers_from
  primaries-layers_from i [] h = refl
  primaries-layers_from i (c ∷ cs) h =
      ap (λ t. slice (i * key_len) key_len m ++ t) (primaries-layers_from (i + 1) cs (omega arith))
      ∙ slice-slice_append (i * key_len) key_len (length cs * key_len) ((i + 1) * key_len)
          (suc (length cs) * key_len) m (omega arith) (omega arith)

  secondaries-layers_from :
      (i : ℕ) (cs : List Cipher)
      → i + length cs ≡ n
      → secondaries (layers_from m n i cs) ≡ slice ((n + i) * key_len) (length cs * key_len) m
  unfolding layers_from
  secondaries-layers_from i [] h = refl
  secondaries-layers_from i (c ∷ cs) h =
      ap (λ t. slice ((n + i) * key_len) key_len m ++ t)
        (secondaries-layers_from (i + 1) cs (omega arith))
      ∙ slice-slice_append ((n + i) * key_len) key_len (length cs * key_len)
          ((n + (i + 1)) * key_len) (suc (length cs) * key_len) m (omega arith) (omega arith)

  layers_from-KeysAreWhole :
      (i : ℕ) (cs : List Cipher) → i + length cs ≡ n → All KeysAreWhole (layers_from m n i cs)
  unfolding layers_from
  layers_from-KeysAreWhole i [] h = tt
  layers_from-KeysAreWhole i (c ∷ cs) h = (
    (
      length-slice (i * key_len) key_len m (omega arith),
      length-slice ((n + i) * key_len) key_len m (omega arith),
    ),
    layers_from-KeysAreWhole (i + 1) cs (omega arith),
  )

ciphers-layers_from :
    (m : List ℕ) (n i : ℕ) (cs : List Cipher) → ciphers (layers_from m n i cs) ≡ cs
unfolding layers_from
ciphers-layers_from m n i [] = refl
ciphers-layers_from m n i (c ∷ cs) = ap (◌∷◌ c) (ciphers-layers_from m n (i + 1) cs)

new_halves :
    (m : List ℕ) (cs : List Cipher)
    → length m ≡ length cs * 64
    → primaries (layers_from m (length cs) 0 cs) ++ secondaries (layers_from m (length cs) 0 cs) ≡ m
new_halves m cs h =
    ap₂ ◌++◌ (primaries-layers_from m (length cs) h 0 cs (omega arith))
      (secondaries-layers_from m (length cs) h 0 cs (omega arith))
    ∙ slice-slice_append 0 (length cs * key_len) (length cs * key_len) ((length cs + 0) * key_len)
        (length cs * 64) m (omega arith) (omega arith)
    ∙ take_all (length cs * 64) m (omega arith)

abbrev pub NewSpec : EncryptionScheme → List ℕ → VcResult SchemeXts → Type 0
NewSpec s material (ok e) =
    (length material ≡ key_bytes s)
    × (ciphers e.layers ≡ s.layers)
    × All KeysAreWhole e.layers
    × (primaries e.layers ++ secondaries e.layers ≡ material)
NewSpec s material (err x) = (length material ≢ key_bytes s)

-- An engine is built exactly when the material has 64 bytes per layer. It then has the scheme's
-- ciphers in the scheme's order, every key has 32 bytes, and the material is all primary keys in
-- layer order followed by all secondary keys in the same order: no byte is shared or left out.
pub new_lem : (s : EncryptionScheme) (material : List ℕ) → NewSpec s material (new s material)
unfolding new
new_lem s material = elim (Bool-cases (length material == key_bytes s)) [
  | inl e ↦
      let h : length material ≡ length s.layers * 64 = (==_iff _ _).0 e in
      rw e (
        h,
        ciphers-layers_from material (length s.layers) 0 s.layers,
        layers_from-KeysAreWhole material (length s.layers) h 0 s.layers (omega arith),
        new_halves material s.layers h,
      )
  | inr e ↦ rw e (λ h. ground arith)
]

-- Material of the scheme's length makes an engine.
pub new_ok :
    (s : EncryptionScheme) (material : List ℕ)
    → length material ≡ key_bytes s
    → (e : SchemeXts) × (new s material ≡ ok e)
unfolding new
new_ok s material h =
    let whole : (length material == key_bytes s) ≡ true = (==_iff _ _).1 h in
    (record { layers = layers_from material (length s.layers) 0 s.layers }, rw whole refl)

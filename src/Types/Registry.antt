-- ===== src/Types/Registry.antt =====
-- core/vc-types/src/registry.rs and core/vc-types/src/registry/generated.rs: ciphers, cascades,
-- and the iteration schedule.
pub mod Laws
use Prim.Native.String.{String}
use vault_pony_core.Prelude.{
  ℕ, ◌+◌, ◌*◌, ◌%◌, ◌^◌, Bool, List, [], ◌∷◌, length, ◌==◌, if◌then◌else◌,
}
use vault_pony_core.Types.Consts.{pim_iter_base, pim_iter_per_unit}

pub data Cipher : Type 0 where
  aes serpent twofish camellia kuznyechik : Cipher

pub record EncryptionScheme : Type 0 where
  pub name : String
  pub layers : List Cipher

-- 64 bytes for each layer: two 256-bit keys.
unfoldable pub key_bytes : EncryptionScheme → ℕ
key_bytes s = length s.layers * 64

pub record Prf : Type 0 where
  pub name : String
  pub default_iterations : ℕ
  pub popularity_rank : ℕ

-- The products and sums are u32 and wrap in a release build.
unfoldable pub iterations_for_pim : Prf → ℕ → ℕ
iterations_for_pim prf pim =
    if pim == 0
    then prf.default_iterations
    else (pim_iter_base + pim * pim_iter_per_unit % 2 ^ 32) % 2 ^ 32

abbrev pub scheme : String → List Cipher → EncryptionScheme
scheme n ls = record { name = n; layers = ls }

abbrev pub encryption_schemes : List EncryptionScheme
encryption_schemes =
    scheme "AES" (aes ∷ [])
    ∷ scheme "Serpent" (serpent ∷ [])
    ∷ scheme "Twofish" (twofish ∷ [])
    ∷ scheme "Camellia" (camellia ∷ [])
    ∷ scheme "Kuznyechik" (kuznyechik ∷ [])
    ∷ scheme "AES(Twofish)" (twofish ∷ aes ∷ [])
    ∷ scheme "AES(Twofish(Serpent))" (serpent ∷ twofish ∷ aes ∷ [])
    ∷ scheme "Serpent(AES)" (aes ∷ serpent ∷ [])
    ∷ scheme "Serpent(Twofish(AES))" (aes ∷ twofish ∷ serpent ∷ [])
    ∷ scheme "Twofish(Serpent)" (serpent ∷ twofish ∷ [])
    ∷ scheme "Camellia(Kuznyechik)" (kuznyechik ∷ camellia ∷ [])
    ∷ scheme "Kuznyechik(Twofish)" (twofish ∷ kuznyechik ∷ [])
    ∷ scheme "Camellia(Serpent)" (serpent ∷ camellia ∷ [])
    ∷ scheme "Kuznyechik(AES)" (aes ∷ kuznyechik ∷ [])
    ∷ scheme "Kuznyechik(Serpent(Camellia))" (camellia ∷ serpent ∷ kuznyechik ∷ [])
    ∷ []

abbrev pub prf_of : String → ℕ → Prf
prf_of n r = record { name = n; default_iterations = 500_000; popularity_rank = r }

abbrev pub prfs : List Prf
prfs =
    prf_of "SHA-512" 0
    ∷ prf_of "SHA-256" 1
    ∷ prf_of "BLAKE2s-256" 2
    ∷ prf_of "Whirlpool" 3
    ∷ prf_of "Streebog" 4
    ∷ []

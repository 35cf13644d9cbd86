-- ===== src/Crypto/Kdf/Laws.antt =====
-- The keys that core/vc-crypto/src/kdf.rs derives for the registered PRFs.
use vault_pony_core.Prelude.{
  ℕ, ◌≤◌, ◌≡◌, refl, sym, ap, ◌∙◌, some, false, List, take, take-append, replicate, length, All,
  ltb, ◌-◌, arith,
}
use vault_pony_core.Types.Error.{ok}
use vault_pony_core.Types.Registry.{Prf, prfs, prf_of}
use vault_pony_core.Crypto.Kdf.{
  Pbkdf2, HeaderKey, as_bytes, filled, max_header_key, derive_header_key, Digest, sha512, sha256,
  whirlpool, blake2s256, streebog512,
}

-- What PBKDF2 (RFC 8018) and its crate document: the output has the length asked for, the call on
-- an HMAC that takes keys of every length succeeds, and a shorter output is a prefix of a longer
-- one, since the blocks are independent.
pub record IsPbkdf2 (p : Pbkdf2) : Type 0 where
  pub length-hmac :
      (d : Digest) (pass salt : List ℕ) (n len : ℕ) → length (p.hmac d pass salt n len) ≡ len
  pub hmac-take :
      (d : Digest) (pass salt : List ℕ) (n short len : ℕ)
      → short ≤ len
      → take short (p.hmac d pass salt n len) ≡ p.hmac d pass salt n short
  pub simple_hmac_total :
      (d : Digest) (pass salt : List ℕ) (n len : ℕ)
      → p.simple_hmac d pass salt n len ≡ some (p.hmac d pass salt n len)

-- A key of `len` bytes, at most 192, is derived, and a shorter derivation would give its prefix.
abbrev pub DerivesPrefixes : Pbkdf2 → Prf → Type 0
DerivesPrefixes p prf =
    (pass salt : List ℕ) (n len : ℕ)
    → len ≤ max_header_key
    → (k : HeaderKey) × (derive_header_key p prf.name pass salt n len ≡ ok k)
      × (length (as_bytes k) ≡ len)
      × ((short : ℕ)
          → short ≤ len
          → (j : HeaderKey) × (derive_header_key p prf.name pass salt n short ≡ ok j)
            × (as_bytes j ≡ take short (as_bytes k)))

module _ (p : Pbkdf2) (laws : IsPbkdf2 p) where
  as_bytes-filled :
      (d : Digest) (pass salt : List ℕ) (n len : ℕ)
      → as_bytes (filled len (p.hmac d pass salt n len)) ≡ p.hmac d pass salt n len
  as_bytes-filled d pass salt n len =
      take-append len (p.hmac d pass salt n len) (replicate (max_header_key - len) 0)
        (sym (laws.length-hmac d pass salt n len))

  fits_in : (len : ℕ) → len ≤ max_header_key → ltb max_header_key len ≡ false
  fits_in len h = ground arith

  hmac-DerivesPrefixes :
      (prf : Prf) (d : Digest)
      → ((pass salt : List ℕ) (n len : ℕ)
          → len ≤ max_header_key
          → derive_header_key p prf.name pass salt n len
            ≡ ok (filled len (p.hmac d pass salt n len)))
      → DerivesPrefixes p prf
  hmac-DerivesPrefixes prf d e pass salt n len fits = (
    filled len (p.hmac d pass salt n len),
    e pass salt n len fits,
    ap length (as_bytes-filled d pass salt n len) ∙ laws.length-hmac d pass salt n len,
    λ short h. (
      filled short (p.hmac d pass salt n short),
      e pass salt n short (omega arith),
      as_bytes-filled d pass salt n short
          ∙ sym (laws.hmac-take d pass salt n short len h)
          ∙ ap (take short) (sym (as_bytes-filled d pass salt n len)),
    ),
  )

  -- For each of the five registered PRFs the derivation of at most 192 bytes succeeds with a key of the length asked
  -- for, and every shorter derivation gives a prefix of it.
  pub prfs-DerivesPrefixes : All (DerivesPrefixes p) prfs
  unfolding derive_header_key
  prfs-DerivesPrefixes = (
    hmac-DerivesPrefixes (prf_of "SHA-512" 0) sha512 (λ a b n l h. rw (fits_in l h) refl),
    (
      hmac-DerivesPrefixes (prf_of "SHA-256" 1) sha256 (λ a b n l h. rw (fits_in l h) refl),
      (
        hmac-DerivesPrefixes (prf_of "BLAKE2s-256" 2) blake2s256
            (λ a b n l h. rw (fits_in l h, laws.simple_hmac_total blake2s256 a b n l) refl),
        (
          hmac-DerivesPrefixes (prf_of "Whirlpool" 3) whirlpool
              (λ a b n l h. rw (fits_in l h) refl),
          (
            hmac-DerivesPrefixes (prf_of "Streebog" 4) streebog512
                (λ a b n l h. rw (fits_in l h) refl),
            tt,
          ),
        ),
      ),
    ),
  )

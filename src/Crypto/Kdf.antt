-- ===== src/Crypto/Kdf.antt =====
-- core/vc-crypto/src/kdf.rs: which digest a registered PRF stands for. PBKDF2 over a digest is the
-- crate pbkdf2, and is a parameter here.
pub mod Laws
use Prim.Native.String.{String}
use text.Mathlib.Text.{◌==◌ as str_eq}
use vault_pony_core.Prelude.{
  ℕ, ◌-◌, Option, none, some, List, ◌++◌, take, replicate, ltb, if◌then◌else◌,
}
use vault_pony_core.Types.Error.{VcResult, ok, err, internal}

pub data Digest : Type 0 where
  sha512 sha256 whirlpool blake2s256 streebog512 : Digest

-- `pbkdf2_hmac::<D>` and `pbkdf2::<SimpleHmac<D>>`, by digest, passphrase, salt, iterations and
-- output length. The second may fail.
pub record Pbkdf2 : Type 0 where
  pub hmac : Digest → List ℕ → List ℕ → ℕ → ℕ → List ℕ
  pub simple_hmac : Digest → List ℕ → List ℕ → ℕ → ℕ → Option (List ℕ)

-- Room for the largest cascade.
abbrev pub max_header_key : ℕ
max_header_key = 192

-- An array of 192 bytes, of which the first `len` are meaningful.
pub record HeaderKey : Type 0 where
  pub bytes : List ℕ
  pub len : ℕ

abbrev pub as_bytes : HeaderKey → List ℕ
as_bytes key = take key.len key.bytes

-- The array after the derivation has filled its first `key_len` bytes.
abbrev pub filled : (key_len : ℕ) → List ℕ → HeaderKey
filled key_len out = record { bytes = out ++ replicate (max_header_key - key_len) 0; len = key_len }

abbrev from_checked : ℕ → Option (List ℕ) → VcResult HeaderKey
from_checked key_len (some out) = ok (filled key_len out)
from_checked key_len none = err (internal "pbkdf2")

module _ (p : Pbkdf2) where
  -- A slice of more than the array is a panic.
  unfoldable pub derive_header_key : String → List ℕ → List ℕ → ℕ → ℕ → VcResult HeaderKey
  derive_header_key prf_name passphrase salt iterations key_len =
      if ltb max_header_key key_len
      then err (internal "panic")
      else if str_eq prf_name "SHA-512"
      then ok (filled key_len (p.hmac sha512 passphrase salt iterations key_len))
      else if str_eq prf_name "SHA-256"
      then ok (filled key_len (p.hmac sha256 passphrase salt iterations key_len))
      else if str_eq prf_name "Whirlpool"
      then ok (filled key_len (p.hmac whirlpool passphrase salt iterations key_len))
      else if str_eq prf_name "BLAKE2s-256"
      then from_checked key_len (p.simple_hmac blake2s256 passphrase salt iterations key_len)
      else if str_eq prf_name "Streebog"
      then ok (filled key_len (p.hmac streebog512 passphrase salt iterations key_len))
      else err (internal "unknown PRF")

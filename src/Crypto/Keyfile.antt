-- ===== src/Crypto/Keyfile.antt =====
-- core/vc-crypto/src/keyfile.rs: the 64-byte pool that keyfiles are mixed into, and the secret that
-- it makes of a passphrase.
pub mod Order
pub mod Secret
use Prim.Native.Nat.{bit_and, bit_xor}
use vault_pony_core.Prelude.{
  ℕ, zero, suc, ◌+◌, ◌-◌, ◌/◌, ◌%◌, ◌^◌, max, List, [], ◌∷◌, ◌++◌, length, get_or, set, take,
  replicate, leb, ◌==◌, ◌*◌, if◌then◌else◌,
}

abbrev pub pool_size : ℕ
pool_size = 64

abbrev pub max_read : ℕ
max_read = 1024 * 1024

-- One round of the loop of `crc32_tab`, and the loop by the rounds left.
abbrev crc32_round : ℕ → ℕ
crc32_round c = if bit_and c 1 == 0 then c / 2 else bit_xor (c / 2) 0xEDB8_8320

crc32_rounds : ℕ → ℕ → ℕ
crc32_rounds zero c = c
crc32_rounds (suc n) c = crc32_rounds n (crc32_round c)

crc32_tab : ℕ → ℕ
unfolding crc32_rounds
crc32_tab index = crc32_rounds 8 (bit_and index 0xff)

pub crc32_update : ℕ → ℕ → ℕ
unfolding crc32_tab
crc32_update crc byte = bit_xor (crc32_tab (bit_and (bit_xor crc byte) 0xff)) (crc / 2 ^ 8)

-- The three variables that `mix_into_pool` changes.
pub record Mix : Type 0 where
  pub pool : List ℕ
  pub write_pos : ℕ
  pub crc : ℕ

abbrev add_at : List ℕ → ℕ → ℕ → List ℕ
add_at pool i v = set pool i ((get_or pool i 0 + v) % 256)

-- One byte of the register, `(*crc >> shift) as u8`, goes into the pool.
mix_shift : Mix → ℕ → Mix
mix_shift m shift = record m {
  pool = add_at m.pool m.write_pos (m.crc / 2 ^ shift % 256);
  write_pos = if leb pool_size (m.write_pos + 1) then 0 else m.write_pos + 1;
}

mix_byte : Mix → ℕ → Mix
unfolding mix_shift
mix_byte m b =
    let n = record m { crc = crc32_update m.crc b } in
    mix_shift (mix_shift (mix_shift (mix_shift n 24) 16) 8) 0

pub mix_bytes : Mix → List ℕ → Mix
unfolding mix_byte
mix_bytes m [] = m
mix_bytes m (b ∷ bs) = mix_bytes (mix_byte m b) bs

-- `data.iter().take(MAX_READ)`
pub mix_into_pool : Mix → List ℕ → Mix
unfolding mix_bytes
mix_into_pool m d = mix_bytes m (take max_read d)

abbrev pub fresh : List ℕ → Mix
fresh pool = record { pool = pool; write_pos = 0; crc = 0xFFFF_FFFF }

-- `for kf in keyfiles`: position and register start anew for each keyfile.
pub mix_keyfiles : List ℕ → List (List ℕ) → List ℕ
unfolding mix_into_pool
mix_keyfiles pool [] = pool
mix_keyfiles pool (k ∷ ks) = mix_keyfiles (mix_into_pool (fresh pool) k).pool ks

-- `for (i, p) in pool.iter().enumerate() { out[i] = out[i].wrapping_add(*p) }`, with `out` and
-- `pool` from index `i` on.
pub add_pool : List ℕ → List ℕ → List ℕ
add_pool out [] = out
add_pool [] (p ∷ ps) = []
add_pool (o ∷ os) (p ∷ ps) = (o + p) % 256 ∷ add_pool os ps

-- The passphrase, extended to 64 bytes when shorter, with the pool added to its first 64 bytes.
pub secret_with : List ℕ → List ℕ → List ℕ
unfolding add_pool
secret_with passphrase pool =
    let out_len = max (length passphrase) pool_size in
    add_pool (passphrase ++ replicate (out_len - length passphrase) 0) pool

unfoldable pub apply_keyfiles : List ℕ → List (List ℕ) → List ℕ
unfolding mix_keyfiles secret_with
apply_keyfiles passphrase [] = passphrase
apply_keyfiles passphrase (k ∷ ks) =
    secret_with passphrase (mix_keyfiles (replicate pool_size 0) (k ∷ ks))

-- ===== src/Crypto/Keyfile/Secret.antt =====
-- The shape of the secret that core/vc-crypto/src/keyfile.rs makes of a passphrase.
use vault_pony_core.Prelude.{
  ℕ, zero, suc, ◌-◌, ◌%◌, ◌≤◌, ◌<◌, max, ◌≡◌, refl, sym, ap, ap₂, ◌/◌, ◌^◌, ◌∙◌, drop_all, List, [],
  ◌∷◌, ◌++◌, length, drop, take, replicate, length-append, length-replicate, length-set, append-nil,
  arith, All,
}
use native.Mathlib.Decide.{dec_le}
use vault_pony_core.Prelude.Bytes.{IsByte}
use vault_pony_core.Crypto.Keyfile.{
  Mix, mix_byte, mix_bytes, mix_keyfiles, fresh, crc32_update, max_read, pool_size, mix_shift,
  add_pool, add_at, apply_keyfiles,
}

length-add_at : (p : List ℕ) (i v : ℕ) → length (add_at p i v) ≡ length p
length-add_at p i v = length-set p i _

-- Bytes stay in the pool: the write position is always inside.
record IsMix (m : Mix) : Type 0 where
  size : length m.pool ≡ pool_size
  inside : m.write_pos < pool_size

mix_shift-IsMix : (m : Mix) (k : ℕ) → IsMix m → IsMix (mix_shift m k)
unfolding mix_shift
mix_shift-IsMix m k v = record {
  size = length-add_at m.pool m.write_pos (m.crc / 2 ^ k % 256) ∙ v.size;
  inside = ground arith;
}

mix_byte-IsMix : (m : Mix) (b : ℕ) → IsMix m → IsMix (mix_byte m b)
unfolding mix_byte
mix_byte-IsMix m b v =
    mix_shift-IsMix _ 0 (mix_shift-IsMix _ 8 (mix_shift-IsMix _ 16 (mix_shift-IsMix n 24 start)))
  where
    n : Mix
    n = record m { crc = crc32_update m.crc b }

    start : IsMix n
    start = record { size = v.size; inside = v.inside }

mix_bytes-IsMix : (bs : List ℕ) (m : Mix) → IsMix m → IsMix (mix_bytes m bs)
unfolding mix_bytes
mix_bytes-IsMix [] m v = v
mix_bytes-IsMix (b ∷ bs) m v = mix_bytes-IsMix bs (mix_byte m b) (mix_byte-IsMix m b v)

fresh-IsMix : (p : List ℕ) → length p ≡ pool_size → IsMix (fresh p)
fresh-IsMix p h = record { size = h; inside = omega arith }

length-mix_keyfiles :
    (ks : List (List ℕ)) (p : List ℕ)
    → length p ≡ pool_size
    → length (mix_keyfiles p ks) ≡ pool_size
unfolding mix_keyfiles
length-mix_keyfiles [] p h = h
length-mix_keyfiles (k ∷ ks) p h =
    length-mix_keyfiles ks _ (mix_bytes-IsMix (take max_read k) (fresh p) (fresh-IsMix p h)).size

length-add_pool : (out ps : List ℕ) → length (add_pool out ps) ≡ length out
unfolding add_pool
length-add_pool out [] = refl
length-add_pool [] (p ∷ ps) = refl
length-add_pool (o ∷ out) (p ∷ ps) = ap suc (length-add_pool out ps)

drop-add_pool : (n : ℕ) (out ps : List ℕ) → length ps ≤ n → drop n (add_pool out ps) ≡ drop n out
unfolding add_pool
drop-add_pool n out [] h = refl
drop-add_pool zero out (p ∷ ps) h = absurd (omega arith)
drop-add_pool (suc n) [] (p ∷ ps) h = refl
drop-add_pool (suc n) (o ∷ out) (p ∷ ps) h = drop-add_pool n out ps (omega arith)

add_pool-IsByte : (out ps : List ℕ) → All IsByte out → All IsByte (add_pool out ps)
unfolding add_pool
add_pool-IsByte out [] h = h
add_pool-IsByte [] (p ∷ ps) h = tt
add_pool-IsByte (o ∷ out) (p ∷ ps) (ho, hs) = (omega arith, add_pool-IsByte out ps hs)

zeros-IsByte : (n : ℕ) → All IsByte (replicate n 0)
zeros-IsByte zero = tt
zeros-IsByte (suc n) = (omega arith, zeros-IsByte n)

append-IsByte : (xs ys : List ℕ) → All IsByte xs → All IsByte ys → All IsByte (xs ++ ys)
append-IsByte [] ys h k = k
append-IsByte (x ∷ xs) ys (h, hs) k = (h, append-IsByte xs ys hs k)

-- Past the 64th byte a padded passphrase is the passphrase.
drop-padded :
    (pass : List ℕ)
    → drop pool_size (pass ++ replicate (max (length pass) pool_size - length pass) 0)
      ≡ drop pool_size pass
drop-padded pass = elim (dec_le (length pass) pool_size) [
  | yes short ↦
      drop_all pool_size (pass ++ replicate (max (length pass) pool_size - length pass) 0) (
        omega (
          arith,
          length-append pass (replicate (max (length pass) pool_size - length pass) 0),
          length-replicate {A = ℕ} (max (length pass) pool_size - length pass) 0,
        ))
      ∙ sym (drop_all pool_size pass short)
  | no long ↦
      let none_left : max (length pass) pool_size - length pass ≡ 0 = omega arith in
      ap (λ n. drop pool_size (pass ++ replicate n 0)) none_left
      ∙ ap (drop pool_size) (append-nil pass)
]

-- With at least one keyfile the secret has the passphrase's length, or 64 bytes if that is shorter;
-- beyond the first 64 bytes it is the passphrase; and it consists of bytes if the passphrase does.
pub apply_keyfiles_shape :
    (pass k : List ℕ) (ks : List (List ℕ))
    → All IsByte pass
    → (length (apply_keyfiles pass (k ∷ ks)) ≡ max (length pass) pool_size)
      × (drop pool_size (apply_keyfiles pass (k ∷ ks)) ≡ drop pool_size pass)
      × All IsByte (apply_keyfiles pass (k ∷ ks))
unfolding apply_keyfiles
apply_keyfiles_shape pass k ks h = (
  omega (
    arith,
    length-add_pool padded pool,
    length-append pass (replicate rest 0),
    length-replicate {A = ℕ} rest 0,
  ),
  drop-add_pool pool_size padded pool (omega (arith, length-pool)) ∙ drop-padded pass,
  add_pool-IsByte padded pool (append-IsByte pass (replicate rest 0) h (zeros-IsByte rest)),
)
  where
    rest : ℕ
    rest = max (length pass) pool_size - length pass

    padded : List ℕ
    padded = pass ++ replicate rest 0

    pool : List ℕ
    pool = mix_keyfiles (replicate pool_size 0) (k ∷ ks)

    length-pool : length pool ≡ pool_size
    length-pool = length-mix_keyfiles (k ∷ ks) _ (length-replicate {A = ℕ} pool_size 0)

add_pool-zeros : (out : List ℕ) (n : ℕ) → All IsByte out → add_pool out (replicate n 0) ≡ out
unfolding add_pool
add_pool-zeros out zero h = refl
add_pool-zeros [] (suc n) h = refl
add_pool-zeros (o ∷ out) (suc n) (ho, h) = ap₂ ◌∷◌ (omega arith) (add_pool-zeros out n h)

-- An empty keyfile adds nothing, but its presence still extends a short passphrase with zeros to 64
-- bytes. The passphrase consists of bytes.
pub apply_keyfiles-empty :
    (pass : List ℕ)
    → All IsByte pass
    → apply_keyfiles pass ([] ∷ [])
      ≡ pass ++ replicate (max (length pass) pool_size - length pass) 0
unfolding apply_keyfiles
apply_keyfiles-empty pass h = add_pool-zeros _ pool_size (append-IsByte pass _ h (zeros-IsByte _))

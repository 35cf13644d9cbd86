-- ===== src/Crypto/Keyfile/Order.antt =====
-- The pool of core/vc-crypto/src/keyfile.rs does not depend on the order of the keyfiles: what a
-- keyfile adds, and where, does not depend on what the pool holds.
use mathlib.Core.List.{Perm, Permᴰ}
use mathlib.Core.Logic.{∥∥₁_elim}
use vault_pony_core.Prelude.{
  ℕ, zero, suc, ◌+◌, ◌/◌, ◌%◌, ◌^◌, ◌≡◌, refl, sym, ap, ap₂, ◌∙◌, List, [], ◌∷◌, take, leb,
  if◌then◌else◌, arith, replicate,
}
use vault_pony_core.Crypto.Keyfile.{
  Mix, add_at, mix_byte, mix_bytes, mix_into_pool, mix_keyfiles, fresh, crc32_update, max_read,
  pool_size, apply_keyfiles, secret_with,
}

next_pos : ℕ → ℕ
next_pos i = if leb pool_size (i + 1) then 0 else i + 1

abbrev Additions : Type 0
Additions = List (ℕ × ℕ)

-- What one keyfile adds, with the places.
additions : ℕ → ℕ → List ℕ → Additions
unfolding next_pos
additions i crc [] = []
additions i crc (b ∷ bs) =
    let c = crc32_update crc b in
    (i, c / 2 ^ 24 % 256)
    ∷ (next_pos i, c / 2 ^ 16 % 256)
    ∷ (next_pos (next_pos i), c / 2 ^ 8 % 256)
    ∷ (next_pos (next_pos (next_pos i)), c / 2 ^ 0 % 256)
    ∷ additions (next_pos (next_pos (next_pos (next_pos i)))) c bs

add_all : List ℕ → Additions → List ℕ
add_all p [] = p
add_all p ((i, v) ∷ l) = add_all (add_at p i v) l

add_at_comm : (p : List ℕ) (i v j w : ℕ) → add_at (add_at p i v) j w ≡ add_at (add_at p j w) i v
add_at_comm [] i v j w = refl
add_at_comm (x ∷ p) zero v zero w = ap (λ t. t ∷ p) (omega arith)
add_at_comm (x ∷ p) zero v (suc j) w = refl
add_at_comm (x ∷ p) (suc i) v zero w = refl
add_at_comm (x ∷ p) (suc i) v (suc j) w = ap (◌∷◌ x) (add_at_comm p i v j w)

add_all-add_at :
    (l : Additions) (p : List ℕ) (i v : ℕ) → add_all (add_at p i v) l ≡ add_at (add_all p l) i v
unfolding add_all
add_all-add_at [] p i v = refl
add_all-add_at ((j, w) ∷ l) p i v =
    ap (λ t. add_all t l) (add_at_comm p i v j w) ∙ add_all-add_at l (add_at p j w) i v

add_all_comm : (l k : Additions) (p : List ℕ) → add_all (add_all p l) k ≡ add_all (add_all p k) l
unfolding add_all
add_all_comm [] k p = refl
add_all_comm ((i, v) ∷ l) k p =
    add_all_comm l k (add_at p i v) ∙ ap (λ t. add_all t l) (add_all-add_at k p i v)

mix_bytes-add_all :
    (bs : List ℕ) (m : Mix)
    → (mix_bytes m bs).pool ≡ add_all m.pool (additions m.write_pos m.crc bs)
unfolding mix_bytes add_all additions
mix_bytes-add_all [] m = refl
mix_bytes-add_all (b ∷ bs) m = mix_bytes-add_all bs (mix_byte m b)

abbrev of_keyfile : List ℕ → Additions
of_keyfile k = additions 0 0xFFFF_FFFF (take max_read k)

mix_into_pool-add_all : (k p : List ℕ) → (mix_into_pool (fresh p) k).pool ≡ add_all p (of_keyfile k)
unfolding mix_into_pool
mix_into_pool-add_all k p = mix_bytes-add_all (take max_read k) (fresh p)

mix_into_pool_comm :
    (k j p : List ℕ)
    → (mix_into_pool (fresh (mix_into_pool (fresh p) k).pool) j).pool
      ≡ (mix_into_pool (fresh (mix_into_pool (fresh p) j).pool) k).pool
mix_into_pool_comm k j p =
    mix_into_pool-add_all j _
    ∙ ap (λ t. add_all t (of_keyfile j)) (mix_into_pool-add_all k p)
    ∙ add_all_comm (of_keyfile k) (of_keyfile j) p
    ∙ ap (λ t. add_all t (of_keyfile k)) (sym (mix_into_pool-add_all j p))
    ∙ sym (mix_into_pool-add_all k _)

mix_keyfiles-permᴰ :
    {ks js : List (List ℕ)} → Permᴰ ks js → (p : List ℕ) → mix_keyfiles p ks ≡ mix_keyfiles p js
unfolding mix_keyfiles
mix_keyfiles-permᴰ Permᴰ.nil p = refl
mix_keyfiles-permᴰ (Permᴰ.cons {b = b} {l₁ = ks} e d) p =
    ap (λ k. mix_keyfiles (mix_into_pool (fresh p) k).pool ks) e
    ∙ mix_keyfiles-permᴰ d (mix_into_pool (fresh p) b).pool
mix_keyfiles-permᴰ (Permᴰ.swap {a' = a'} {b' = b'} {l = ks} e₁ e₂) p =
    ap₂ (λ k j. mix_keyfiles (mix_into_pool (fresh (mix_into_pool (fresh p) k).pool) j).pool ks) e₁
      e₂
    ∙ ap (λ q. mix_keyfiles q ks) (mix_into_pool_comm b' a' p)
mix_keyfiles-permᴰ (Permᴰ.trans d₁ d₂) p = mix_keyfiles-permᴰ d₁ p ∙ mix_keyfiles-permᴰ d₂ p

apply_keyfiles-permᴰ :
    (pass : List ℕ) {ks js : List (List ℕ)}
    → Permᴰ ks js
    → apply_keyfiles pass ks ≡ apply_keyfiles pass js
unfolding apply_keyfiles
apply_keyfiles-permᴰ pass Permᴰ.nil = refl
apply_keyfiles-permᴰ pass (Permᴰ.cons e d) =
    ap (λ q. secret_with pass q) (mix_keyfiles-permᴰ (Permᴰ.cons e d) (replicate pool_size 0))
apply_keyfiles-permᴰ pass (Permᴰ.swap {l = ks} e₁ e₂) =
    ap (λ q. secret_with pass q)
      (mix_keyfiles-permᴰ (Permᴰ.swap {l = ks} e₁ e₂) (replicate pool_size 0))
apply_keyfiles-permᴰ pass (Permᴰ.trans d₁ d₂) =
    apply_keyfiles-permᴰ pass d₁ ∙ apply_keyfiles-permᴰ pass d₂

-- The effective secret is the same for every order of the keyfiles.
pub apply_keyfiles-perm :
    (pass : List ℕ) (ks js : List (List ℕ))
    → Perm ks js
    → apply_keyfiles pass ks ≡ apply_keyfiles pass js
apply_keyfiles-perm pass ks js h = ∥∥₁_elim h (List_set _ _) (λ d. apply_keyfiles-permᴰ pass d)
  where
    List_set : IsSet (List ℕ)
    List_set = hlevel

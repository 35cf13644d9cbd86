-- ===== src/Format/Decrypted/Units.antt =====
-- Decrypting whole units of a container piece by piece, by the law of the XTS engine.
use vault_pony_core.Prelude.{
  ℕ, ◌+◌, ◌*◌, ◌≤◌, ◌≡◌, sym, ap, ap₂, ◌∙◌, List, ◌++◌, length, take, drop, take-append-drop,
  take-append, drop-append, length-take, length-drop, arith,
}
use vault_pony_core.Prelude.Slices.{slice, splice}
use vault_pony_core.Crypto.Xts.{XtsMode, SchemeXts, decrypt_units}
use vault_pony_core.Crypto.Xts.RoundTrip.{IsXts, length-decrypt_units, decrypt_units-append}

module _ (x : XtsMode) (laws : IsXts x) (e : SchemeXts) where
  -- A container cut after `q` units.
  split_units :
      (c : List ℕ) (first q j : ℕ)
      → j ≡ q * 512
      → j ≤ length c
      → decrypt_units x e c first
        ≡ decrypt_units x e (take j c) first ++ decrypt_units x e (drop j c) (first + q)
  split_units c first q j hq hj =
      ap (λ t. decrypt_units x e t first) (sym (take-append-drop j c))
      ∙ decrypt_units-append x laws e (take j c) (drop j c) first q (omega (arith, length-take j c))

  pub take-decrypt_units :
      (c : List ℕ) (first q j : ℕ)
      → j ≡ q * 512
      → j ≤ length c
      → take j (decrypt_units x e c first) ≡ decrypt_units x e (take j c) first
  take-decrypt_units c first q j hq hj =
      ap (take j) (split_units c first q j hq hj)
      ∙ take-append j (decrypt_units x e (take j c) first) _
          (omega (arith, length-decrypt_units x laws e (take j c) first, length-take j c))

  pub drop-decrypt_units :
      (c : List ℕ) (first q j : ℕ)
      → j ≡ q * 512
      → j ≤ length c
      → drop j (decrypt_units x e c first) ≡ decrypt_units x e (drop j c) (first + q)
  drop-decrypt_units c first q j hq hj =
      ap (drop j) (split_units c first q j hq hj)
      ∙ drop-append j (decrypt_units x e (take j c) first) _
          (omega (arith, length-decrypt_units x laws e (take j c) first, length-take j c))

  -- A span of whole units decrypts on its own, under its own unit number, as within the container.
  pub decrypt_units-slice :
      (c : List ℕ) (q m a n : ℕ)
      → a ≡ q * 512
      → n ≡ m * 512
      → a + n ≤ length c
      → decrypt_units x e (slice a n c) q ≡ slice a n (decrypt_units x e c 0)
  decrypt_units-slice c q m a n ha hn h =
      sym (take-decrypt_units (drop a c) q m n hn (omega (arith, length-drop a c)))
      ∙ ap (take n) (
          sym (
            drop-decrypt_units c 0 q a ha (omega arith)
            ∙ ap (decrypt_units x e (drop a c)) (omega arith)))

  -- Replacing a span of whole units of the ciphertext replaces that span of the plaintext.
  pub decrypt_units-splice :
      (c ys : List ℕ) (q m a : ℕ)
      → a ≡ q * 512
      → length ys ≡ m * 512
      → a + length ys ≤ length c
      → decrypt_units x e (splice a ys c) 0
        ≡ splice a (decrypt_units x e ys q) (decrypt_units x e c 0)
  decrypt_units-splice c ys q m a ha hm h =
      decrypt_units-append x laws e (take a c) (ys ++ back) 0 q (omega (arith, length-take a c))
      ∙ ap₂ ◌++◌ (sym (take-decrypt_units c 0 q a ha (omega arith))) (
          ap (decrypt_units x e (ys ++ back)) (omega arith)
          ∙ decrypt_units-append x laws e ys back q m hm
          ∙ ap (◌++◌ (decrypt_units x e ys q)) rest)
    where
      back : List ℕ
      back = drop (a + length ys) c

      rest :
          decrypt_units x e back (q + m)
          ≡ drop (a + length (decrypt_units x e ys q)) (decrypt_units x e c 0)
      rest =
          ap (decrypt_units x e back) (omega arith)
          ∙ sym (drop-decrypt_units c 0 (q + m) (a + length ys) (omega arith) h)
          ∙ ap (λ j. drop j (decrypt_units x e c 0))
              (omega (arith, length-decrypt_units x laws e ys q))

-- ===== src/Crypto/Xts/RoundTrip.antt =====
-- The cascade of core/vc-crypto/src/xts.rs inherits the laws of its layers: decryption undoes
-- encryption, lengths are kept, and a buffer may be decrypted in pieces of whole units.
use vault_pony_core.Prelude.{
  ℕ, ◌+◌, ◌*◌, ◌≤◌, ◌≡◌, refl, ap, ◌∙◌, List, [], ◌∷◌, ◌++◌, length, arith,
}
use vault_pony_core.Types.Consts.{xts_data_unit_len}
use vault_pony_core.Types.Registry.{Cipher}
use vault_pony_core.Crypto.Xts.{
  XtsMode, LayerXts, SchemeXts, layer_encrypt, layer_decrypt, encrypt_layers, decrypt_layers,
  decrypt_header, encrypt_header, decrypt_units, encrypt_units,
}

-- What the crate xts-mode documents of one cipher: `decrypt_area` undoes `encrypt_area` under the
-- same keys, sector size and first sector; both work in place; and an area is the sequence of its
-- sectors, each under the number that counts on from the first.
pub record IsXts (x : XtsMode) : Type 0 where
  pub decrypt-encrypt :
      (c : Cipher) (k t b : List ℕ) (size first : ℕ)
      → x.decrypt_area c k t (x.encrypt_area c k t b size first) size first ≡ b
  pub length-encrypt :
      (c : Cipher) (k t b : List ℕ) (size first : ℕ)
      → length (x.encrypt_area c k t b size first) ≡ length b
  pub length-decrypt :
      (c : Cipher) (k t b : List ℕ) (size first : ℕ)
      → length (x.decrypt_area c k t b size first) ≡ length b
  pub decrypt-append :
      (c : Cipher) (k t a b : List ℕ) (size first m : ℕ)
      → 16 ≤ size
      → length a ≡ m * size
      → x.decrypt_area c k t (a ++ b) size first
        ≡ x.decrypt_area c k t a size first ++ x.decrypt_area c k t b size (first + m)

-- And that `encrypt_area` undoes `decrypt_area`: each block cipher is a permutation.
pub record IsPermutation (x : XtsMode) : Type 0 where
  pub encrypt-decrypt :
      (c : Cipher) (k t b : List ℕ) (size first : ℕ)
      → x.encrypt_area c k t (x.decrypt_area c k t b size first) size first ≡ b

module _ (x : XtsMode) (perm : IsPermutation x) where
  encrypt_layers-decrypt_layers :
      (ls : List LayerXts) (b : List ℕ) (size first : ℕ)
      → encrypt_layers x ls (decrypt_layers x ls b size first) size first ≡ b
  unfolding decrypt_layers encrypt_layers
  encrypt_layers-decrypt_layers [] b size first = refl
  encrypt_layers-decrypt_layers (l ∷ ls) b size first =
      ap (λ t. encrypt_layers x ls t size first)
        (perm.encrypt-decrypt l.cipher l.primary l.secondary (decrypt_layers x ls b size first) size
          first)
      ∙ encrypt_layers-decrypt_layers ls b size first

  pub encrypt_units-decrypt_units :
      (e : SchemeXts) (b : List ℕ) (first : ℕ)
      → encrypt_units x e (decrypt_units x e b first) first ≡ b
  unfolding decrypt_units encrypt_units
  encrypt_units-decrypt_units e b first = encrypt_layers-decrypt_layers e.layers b _ first

module _ (x : XtsMode) (laws : IsXts x) where
  decrypt_layers-encrypt_layers :
      (ls : List LayerXts) (b : List ℕ) (size first : ℕ)
      → decrypt_layers x ls (encrypt_layers x ls b size first) size first ≡ b
  unfolding decrypt_layers encrypt_layers
  decrypt_layers-encrypt_layers [] b size first = refl
  decrypt_layers-encrypt_layers (l ∷ ls) b size first =
      ap (λ t. layer_decrypt x l t size first)
        (decrypt_layers-encrypt_layers ls (layer_encrypt x l b size first) size first)
      ∙ laws.decrypt-encrypt l.cipher l.primary l.secondary b size first

  length-encrypt_layers :
      (ls : List LayerXts) (b : List ℕ) (size first : ℕ)
      → length (encrypt_layers x ls b size first) ≡ length b
  unfolding encrypt_layers
  length-encrypt_layers [] b size first = refl
  length-encrypt_layers (l ∷ ls) b size first =
      length-encrypt_layers ls (layer_encrypt x l b size first) size first
      ∙ laws.length-encrypt l.cipher l.primary l.secondary b size first

  length-decrypt_layers :
      (ls : List LayerXts) (b : List ℕ) (size first : ℕ)
      → length (decrypt_layers x ls b size first) ≡ length b
  unfolding decrypt_layers
  length-decrypt_layers [] b size first = refl
  length-decrypt_layers (l ∷ ls) b size first =
      laws.length-decrypt l.cipher l.primary l.secondary (decrypt_layers x ls b size first) size
        first
      ∙ length-decrypt_layers ls b size first

  decrypt_layers-append :
      (ls : List LayerXts) (a b : List ℕ) (size first m : ℕ)
      → 16 ≤ size
      → length a ≡ m * size
      → decrypt_layers x ls (a ++ b) size first
        ≡ decrypt_layers x ls a size first ++ decrypt_layers x ls b size (first + m)
  unfolding decrypt_layers
  decrypt_layers-append [] a b size first m big h = refl
  decrypt_layers-append (l ∷ ls) a b size first m big h =
      ap (λ t. layer_decrypt x l t size first) (decrypt_layers-append ls a b size first m big h)
      ∙ laws.decrypt-append l.cipher l.primary l.secondary (decrypt_layers x ls a size first)
          (decrypt_layers x ls b size (first + m)) size first m big
          (length-decrypt_layers ls a size first ∙ h)

  -- Decrypting units under the number they were encrypted with gives the plaintext back, for every
  -- scheme, whatever the number of its layers, if the XTS mode of each cipher obeys its laws.
  pub decrypt_units-encrypt_units :
      (e : SchemeXts) (b : List ℕ) (first : ℕ)
      → decrypt_units x e (encrypt_units x e b first) first ≡ b
  unfolding decrypt_units encrypt_units
  decrypt_units-encrypt_units e b first = decrypt_layers-encrypt_layers e.layers b _ first

  pub length-encrypt_units :
      (e : SchemeXts) (b : List ℕ) (first : ℕ) → length (encrypt_units x e b first) ≡ length b
  unfolding encrypt_units
  length-encrypt_units e b first = length-encrypt_layers e.layers b _ first

  pub length-decrypt_units :
      (e : SchemeXts) (b : List ℕ) (first : ℕ) → length (decrypt_units x e b first) ≡ length b
  unfolding decrypt_units
  length-decrypt_units e b first = length-decrypt_layers e.layers b _ first

  pub decrypt_units-append :
      (e : SchemeXts) (a b : List ℕ) (first m : ℕ)
      → length a ≡ m * xts_data_unit_len
      → decrypt_units x e (a ++ b) first
        ≡ decrypt_units x e a first ++ decrypt_units x e b (first + m)
  unfolding decrypt_units
  decrypt_units-append e a b first m h =
      decrypt_layers-append e.layers a b _ first m (omega arith) h

  pub length-encrypt_header :
      (e : SchemeXts) (b : List ℕ) → length (encrypt_header x e b) ≡ length b
  unfolding encrypt_header
  length-encrypt_header e b = length-encrypt_layers e.layers b _ 0

  pub decrypt_header-encrypt_header :
      (e : SchemeXts) (b : List ℕ) → decrypt_header x e (encrypt_header x e b) ≡ b
  unfolding decrypt_header encrypt_header
  decrypt_header-encrypt_header e b =
      ap (λ n. decrypt_layers x e.layers (encrypt_layers x e.layers b (length b) 0) n 0)
        (length-encrypt_layers e.layers b (length b) 0)
      ∙ decrypt_layers-encrypt_layers e.layers b (length b) 0

-- ===== src/Crypto/Xts.antt =====
-- core/vc-crypto/src/xts.rs: the XTS engine of a scheme, one layer per cipher. The XTS mode of one
-- cipher is the crate xts-mode over the cipher crates, and is a parameter here.
pub mod RoundTrip
pub mod Keys
use vault_pony_core.Prelude.{
  ℕ, zero, suc, ◌+◌, ◌*◌, Bool, true, List, [], ◌∷◌, length, ◌==◌, if◌then◌else◌,
}
use vault_pony_core.Prelude.Slices.{slice}
use vault_pony_core.Types.Consts.{xts_data_unit_len}
use vault_pony_core.Types.Error.{VcResult, ok, err, internal}
use vault_pony_core.Types.Registry.{Cipher, EncryptionScheme, key_bytes}

-- `Xts128::encrypt_area` and `decrypt_area` with `get_tweak_default`, by cipher, primary key,
-- secondary key, buffer, sector size and number of the first sector.
pub record XtsMode : Type 0 where
  pub encrypt_area : Cipher → List ℕ → List ℕ → List ℕ → ℕ → ℕ → List ℕ
  pub decrypt_area : Cipher → List ℕ → List ℕ → List ℕ → ℕ → ℕ → List ℕ

abbrev pub key_len : ℕ
key_len = 32

-- The enum `LayerXts`: which cipher, under which pair of keys.
pub record LayerXts : Type 0 where
  pub cipher : Cipher
  pub primary : List ℕ
  pub secondary : List ℕ

pub record SchemeXts : Type 0 where
  pub layers : List LayerXts

unfoldable pub supported : EncryptionScheme → Bool
supported s = true

-- `scheme.layers.iter().enumerate()` from index `i` on; `n` is the number of all layers.
pub layers_from : List ℕ → ℕ → ℕ → List Cipher → List LayerXts
layers_from material n i [] = []
layers_from material n i (c ∷ cs) =
    record {
      cipher = c;
      primary = slice (i * key_len) key_len material;
      secondary = slice ((n + i) * key_len) key_len material;
    }
    ∷ layers_from material n (i + 1) cs

unfoldable pub new : EncryptionScheme → List ℕ → VcResult SchemeXts
unfolding layers_from key_bytes
new s material =
    if length material == key_bytes s
    then ok (record { layers = layers_from material (length s.layers) 0 s.layers })
    else err (internal "scheme needs other key bytes")

module _ (x : XtsMode) where
  layer_encrypt : LayerXts → List ℕ → ℕ → ℕ → List ℕ
  layer_encrypt l buf size first = x.encrypt_area l.cipher l.primary l.secondary buf size first

  layer_decrypt : LayerXts → List ℕ → ℕ → ℕ → List ℕ
  layer_decrypt l buf size first = x.decrypt_area l.cipher l.primary l.secondary buf size first

  -- `for layer in self.layers.iter()`: the first layer is applied first.
  pub encrypt_layers : List LayerXts → List ℕ → ℕ → ℕ → List ℕ
  unfolding layer_encrypt
  encrypt_layers [] buf size first = buf
  encrypt_layers (l ∷ ls) buf size first =
      encrypt_layers ls (layer_encrypt l buf size first) size first

  -- `for layer in self.layers.iter().rev()`: the last layer is applied first.
  pub decrypt_layers : List LayerXts → List ℕ → ℕ → ℕ → List ℕ
  unfolding layer_decrypt
  decrypt_layers [] buf size first = buf
  decrypt_layers (l ∷ ls) buf size first =
      layer_decrypt l (decrypt_layers ls buf size first) size first

  unfoldable pub decrypt_header : SchemeXts → List ℕ → List ℕ
  unfolding decrypt_layers
  decrypt_header e buf = decrypt_layers e.layers buf (length buf) 0

  unfoldable pub encrypt_header : SchemeXts → List ℕ → List ℕ
  unfolding encrypt_layers
  encrypt_header e buf = encrypt_layers e.layers buf (length buf) 0

  unfoldable pub decrypt_units : SchemeXts → List ℕ → ℕ → List ℕ
  unfolding decrypt_layers
  decrypt_units e buf first = decrypt_layers e.layers buf xts_data_unit_len first

  unfoldable pub encrypt_units : SchemeXts → List ℕ → ℕ → List ℕ
  unfolding encrypt_layers
  encrypt_units e buf first = encrypt_layers e.layers buf xts_data_unit_len first

-- ===== src/Session/Create.antt =====
-- core/vault-core/src/session.rs: making a container, with its file system and with a hidden volume. The
-- handles that `make_dev` returns are the same device, which is the state here.
use vault_pony_core.Prelude.{ℕ, List}
use vault_pony_core.Prelude.Bytes.{le32_at}
use vault_pony_core.Types.Error.{lift, pure, M, ◌>>=◌, ◌>>◌}
use vault_pony_core.Device.{BlockDevice}
use vault_pony_core.Crypto.Primitives.{Primitives}
use vault_pony_core.Crypto.Keyfile.{apply_keyfiles}
use vault_pony_core.Format.Search.{find_header}
use vault_pony_core.Format.Decrypted.{DecryptedDevice, decrypted_device}
use vault_pony_core.Format.Volume.{
  CreateParams, Rng, W, on_device, fill_random, create_volume, create_hidden,
}
use vault_pony_core.VcFs.Io.{FatCrate, fat_format}
use vault_pony_core.VcFs.ExfatVfs.{format_exfat}
use vault_pony_core.Session.{open_data}

pub data ContainerFs : Type 0 where
  fat exfat : ContainerFs

module _ (c : Primitives) (d : BlockDevice) (r : Rng) (fat_crate : FatCrate)
    (upcase_table : List ℕ) where
  unfoldable random_serial : M (W c d r) ℕ
  random_serial = do b ← fill_random c d r 4; pure (le32_at b 0)

  abbrev format_with : ContainerFs → DecryptedDevice → M (W c d r) (Unit {0})
  format_with fat v = on_device (fat_format fat_crate (decrypted_device c.mode d v))
  format_with exfat v = do
    serial ← random_serial
    on_device (format_exfat (decrypted_device c.mode d v) upcase_table serial)

  unfoldable pub format_data : CreateParams → ContainerFs → M (W c d r) (Unit {0})
  unfolding random_serial
  format_data params fs = do
    found ← on_device (
        find_header c d (record {
          passphrase = apply_keyfiles params.passphrase params.keyfiles;
          pim = params.pim;
        }))
    v ← lift (open_data found)
    format_with fs v

  unfoldable create_container : CreateParams → ContainerFs → M (W c d r) (Unit {0})
  create_container params fs = do made ← create_volume c d r params; format_data params fs

  unfoldable create_container_with_hidden :
      (outer hidden : CreateParams) → (hidden_data_size : ℕ) → ContainerFs → M (W c d r) (Unit {0})
  create_container_with_hidden outer hidden hidden_data_size fs = do
    made ← create_volume c d r outer
    inner ← create_hidden c d r hidden hidden_data_size
    format_data outer fs
    format_data hidden fs

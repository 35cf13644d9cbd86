-- ===== src/Session/Probe.antt =====
-- core/vault-core/src/probe.rs: the facts about a container that may be shown.
use Prim.Native.String.{String}
use vault_pony_core.Prelude.{ℕ, ◌/◌, List, take}
use vault_pony_core.Types.Consts.{xts_data_unit_len}
use vault_pony_core.Types.Error.{M, pure, lift, ◌>>=◌}
use vault_pony_core.Types.Header.{HeaderPosition, VolumeGeometry}
use vault_pony_core.Types.Header
use vault_pony_core.Types.Registry.{key_bytes}
use vault_pony_core.Device.{BlockDevice}
use vault_pony_core.Crypto.Primitives.{Primitives}
use vault_pony_core.Crypto.Xts.{decrypt_units}
use vault_pony_core.Crypto.Xts
use vault_pony_core.Format.Search.{find_header}
use vault_pony_core.VcFs.Detect.{FsKind, sniff}

pub data HeaderSource : Type 0 where
  primary backup : HeaderSource

unfoldable source_of : HeaderPosition → HeaderSource
source_of Header.primary = primary
source_of Header.hidden = primary
source_of Header.backup_primary = backup
source_of Header.backup_hidden = backup

pub record VolumeInfo : Type 0 where
  pub scheme : String
  pub prf : String
  pub source : HeaderSource
  pub header_version : ℕ
  pub min_program_version : ℕ
  pub geometry : VolumeGeometry
  pub filesystem : FsKind

module _ (c : Primitives) (d : BlockDevice) where
  unfoldable probe : (passphrase : List ℕ) → (pim : ℕ) → M d.State VolumeInfo
  unfolding source_of
  probe passphrase pim = do
    found ← find_header c d (record { passphrase = passphrase; pim = pim })
    let geo = found.header.geometry
    boot ← d.read_at geo.encrypted_area_start 4096
    xts ← lift (Xts.new found.scheme (take (key_bytes found.scheme) found.header.master_keys))
    let plain = decrypt_units c.mode xts boot (geo.encrypted_area_start / xts_data_unit_len)
    pure (record {
      scheme = found.scheme.name;
      prf = found.prf.name;
      source = source_of found.header.position;
      header_version = found.header.header_version;
      min_program_version = found.header.min_program_version;
      geometry = geo;
      filesystem = sniff plain;
    })

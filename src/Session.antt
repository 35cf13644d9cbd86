-- ===== src/Session.antt =====
-- core/vault-core/src/session.rs: unlocking a container. The paths and files of the operating system
-- stay outside; each function starts from an open device.
pub mod Create
pub mod Probe
pub mod Guarded
pub mod Repair
use Prim.Native.String.{String}
use vault_pony_core.Prelude.{ℕ, not, Option, none, some, List, [], ◌∷◌, ltb, take, if◌then◌else◌}
use vault_pony_core.Prelude.Words.{add64, checked_sub}
use vault_pony_core.Types.Error.{
  Result, VcResult, VcError, ok, err, guard_M, lift, pure, M, internal, ◌>>=◌, ◌>>◌,
}
use vault_pony_core.Types.Header.{VolumeGeometry, primary, hidden, backup_primary, backup_hidden}
use vault_pony_core.Types.Registry.{key_bytes}
use vault_pony_core.Device.{BlockDevice}
use vault_pony_core.Crypto.Primitives.{Primitives}
use vault_pony_core.Crypto.Xts.{SchemeXts}
use vault_pony_core.Crypto.Xts
use vault_pony_core.Format.Search.{UnlockSecret, FoundHeader, find_header, find_header_at}
use vault_pony_core.Format.Decrypted.{DecryptedDevice, decrypted_device}
use vault_pony_core.Format.Decrypted
use vault_pony_core.Format.Protect.{Region, Protected, region, protected_device}
use vault_pony_core.Format.Protect
use vault_pony_core.VcFs.{Vfs, AnyVfs, NtfsCrate, open_volume}
use vault_pony_core.VcFs.Io.{FatCrate}

pub record Session (V : Type 0) : Type 0 where
  pub vfs : V
  pub scheme : String
  pub prf : String

-- The engine of the header that was found, over its data area.
abbrev pub open_data : FoundHeader → VcResult DecryptedDevice
open_data found =
    elim (Xts.new found.scheme (take (key_bytes found.scheme) found.header.master_keys)) [
      | ok xts ↦ ok (Decrypted.new xts found.header.geometry)
      | err e ↦ err e
    ]

-- The hidden data area in the coordinates of the outer one. The sum in the test wraps.
unfoldable pub protected_region : (outer_geo hidden_geo : VolumeGeometry) → VcResult Region
protected_region outer_geo hidden_geo =
    elim (checked_sub hidden_geo.encrypted_area_start outer_geo.encrypted_area_start) [
      | none ↦ err (internal "hidden region precedes outer data")
      | some start ↦
          if ltb outer_geo.encrypted_area_size (add64 start hidden_geo.encrypted_area_size)
          then err (internal "hidden region exceeds outer data area")
          else ok (region start hidden_geo.encrypted_area_size)
    ]

-- What `unlock_outer_protected_device` stacks on the device, and the names it reports.
pub record Stack : Type 0 where
  pub area : DecryptedDevice
  pub guard : Region
  pub scheme : String
  pub prf : String

module _ (c : Primitives) (d : BlockDevice) where
  -- Up to `ProtectedDevice::new`: both headers, the region and the engine of the outer volume.
  unfoldable pub outer_stack : (outer hidden : List ℕ) → (pim : ℕ) → M d.State Stack
  outer_stack outer_passphrase hidden_passphrase pim = do
    outer ←
        find_header_at c d (record { passphrase = outer_passphrase; pim = pim })
          (primary ∷ backup_primary ∷ [])
    inner ←
        find_header_at c d (record { passphrase = hidden_passphrase; pim = pim })
          (hidden ∷ backup_hidden ∷ [])
    g ← lift (protected_region outer.header.geometry inner.header.geometry)
    v ← lift (open_data outer)
    pure (record { area = v; guard = g; scheme = outer.scheme.name; prf = outer.prf.name })

  module _ (fat_crate : FatCrate) (ntfs_crate : NtfsCrate) where
    unfoldable pub unlock_device :
        (passphrase : List ℕ) → (pim : ℕ) → M d.State (Session (AnyVfs fat_crate ntfs_crate d))
    unlock_device passphrase pim = do
      found ← find_header c d (record { passphrase = passphrase; pim = pim })
      v ← lift (open_data found)
      opened ← open_volume fat_crate ntfs_crate (decrypted_device c.mode d v)
      pure (record { vfs = opened; scheme = found.scheme.name; prf = found.prf.name })

    -- The volume over the protected device, which is new and not latched.
    abbrev open_protected :
        Stack → d.State → VcResult (Session (AnyVfs fat_crate ntfs_crate d)) × Protected d.State
    open_protected k s =
        (do
          opened ←
              open_volume fat_crate ntfs_crate
                (protected_device (decrypted_device c.mode d k.area) k.guard)
          pure (record { vfs = opened; scheme = k.scheme; prf = k.prf }))
          (Protect.new s)

    unfoldable pub unlock_outer_protected_device :
        (outer hidden : List ℕ)
        → (pim : ℕ) → d.State
        → VcResult (Session (AnyVfs fat_crate ntfs_crate d)) × Protected d.State
    unfolding outer_stack
    unlock_outer_protected_device outer_passphrase hidden_passphrase pim s =
        let (r, s') = outer_stack outer_passphrase hidden_passphrase pim s in
        elim r [ ok k ↦ open_protected k s' | err e ↦ (err e, Protect.new s') ]

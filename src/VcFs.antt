-- ===== src/VcFs.antt =====
-- core/vc-fs/src/lib.rs: the kinds of file system, and the adapter that a decrypted volume gets.
-- `fatfs` and the NTFS adapter are parameters.
pub mod Detect
pub mod Io
pub mod ExfatVfs
pub mod Formatted
use vault_pony_core.Prelude.{ℕ, List}
use vault_pony_core.Types.Error.{M, unsupported_filesystem, unknown_filesystem, pure, fail, ◌>>=◌}
use vault_pony_core.Device.{BlockDevice}
use vault_pony_core.Exfat.Fs.{ExfatFs}
use vault_pony_core.VcFs.Detect.{FsKind, fat, exfat, ntfs, ext4, unknown, sniff}
use vault_pony_core.VcFs.Io.{FatCrate, fat_open}
use vault_pony_core.VcFs.ExfatVfs

-- `Box<dyn Vfs>`: the adapter that was opened, over the device's state.
pub data Vfs (F N : Type 0) : Type 0 where
  fat_vfs : F → Vfs F N
  exfat_vfs : ExfatFs → Vfs F N
  ntfs_vfs : N → Vfs F N

-- `NtfsVfs::open` of src/ntfs_ro.rs, which the crate `ntfs` carries out.
pub record NtfsCrate : Type 1 where
  pub Handle : Type 0
  pub open_ntfs : (d : BlockDevice) → M d.State Handle

module _ (fat_crate : FatCrate) (ntfs_crate : NtfsCrate) (d : BlockDevice) where
  abbrev pub AnyVfs : Type 0
  AnyVfs = Vfs fat_crate.Handle ntfs_crate.Handle

  abbrev open_kind : FsKind → M d.State AnyVfs
  open_kind fat = do f ← fat_open fat_crate d; pure (fat_vfs f)
  open_kind exfat = do f ← ExfatVfs.open_vfs d; pure (exfat_vfs f)
  open_kind ntfs = do f ← ntfs_crate.open_ntfs d; pure (ntfs_vfs f)
  open_kind ext4 = fail (unsupported_filesystem "ext4")
  open_kind unknown = fail unknown_filesystem

  unfoldable pub open_volume : M d.State AnyVfs
  open_volume = do boot ← d.read_at 0 4096; open_kind (sniff boot)

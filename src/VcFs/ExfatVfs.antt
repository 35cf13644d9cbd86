-- ===== src/VcFs/ExfatVfs.antt =====
-- core/vc-fs/src/exfat.rs: the adapter over norse-exfat. Its calls go through to the operations of the
-- volume, whose errors are named for the user.
use vault_pony_core.Prelude.{ℕ, Bool, true, Option, none, some, List, [], ◌∷◌, map, if◌then◌else◌}
use vault_pony_core.Prelude.Results.{ok, err, pure, lift, ◌>>=◌, ◌>>◌}
use vault_pony_core.Types.Error.{IoError, wrapped, VcError, internal, filesystem, M, VcResult}
use vault_pony_core.Types.Error
use vault_pony_core.Device.{BlockDevice}
use vault_pony_core.Exfat.Error.{ExfatError, invalid, not_found, io, panic, Disk, X}
use vault_pony_core.Exfat.Dir.{Entry}
use vault_pony_core.Exfat.Ranges.{ok_or, read_file}
use vault_pony_core.Exfat.Fs.{ExfatFs, root_dir, list_dir, lookup}
use vault_pony_core.Exfat.Fs
use vault_pony_core.Exfat.Format
use vault_pony_core.Exfat.Write.Files.{
  create_file, make_dir, rename, write_file, truncate_file, remove,
}
use vault_pony_core.VcFs.Io.{to_io, map_err_M}

pub record DirEntry : Type 0 where
  pub name : List ℕ
  pub is_dir : Bool
  pub size : ℕ
  pub mtime_ms : Option ℕ

-- `DeviceReadAt`
abbrev pub disk_of : BlockDevice → Disk
disk_of d = record {
  State = d.State;
  len = map_err_M (λ e. wrapped) d.len;
  read_at = λ offset n. map_err_M to_io (d.read_at offset n);
  write_at = λ offset b. map_err_M to_io (d.write_at offset b);
  flush = map_err_M (λ e. wrapped) d.flush;
}

-- A panic has no error of its own.
abbrev pub fs_err : ExfatError → VcError
fs_err not_found = filesystem "not found"
fs_err (invalid what) = filesystem "invalid exFAT volume"
fs_err (io e) = filesystem "I/O"
fs_err panic = internal "panic"

abbrev pub entry_of : Entry → DirEntry
entry_of e = record { name = e.name; is_dir = e.is_dir; size = e.size; mtime_ms = e.mtime_ms }

abbrev via : {S A : Type 0} → X S A → M S A
via = map_err_M fs_err

module _ (d : BlockDevice) where
  unfoldable pub open_vfs : M d.State ExfatFs
  open_vfs = via (Fs.open_volume (disk_of d))

  unfoldable pub format_exfat : (upcase_table : List ℕ) → (serial : ℕ) → M d.State (Unit {0})
  format_exfat upcase_table serial = do
    total ← map_err_M Error.io ((disk_of d).len)
    via (Format.format (disk_of d) upcase_table total serial)
    map_err_M Error.io ((disk_of d).flush)

  module _ (fs : ExfatFs) where
    abbrev dir_of : Option Entry → VcResult (ℕ × Bool × ℕ)
    dir_of none = ok (root_dir (disk_of d) fs)
    dir_of (some e) =
        if e.is_dir
        then ok (e.first_cluster, e.no_fat_chain, e.size)
        else err (filesystem "not a directory")

    unfoldable list : List ℕ → M d.State (List DirEntry)
    list path = do
      found ← via (lookup (disk_of d) fs path)
      at ← lift (dir_of found)
      entries ← via (list_dir (disk_of d) fs at.0 at.1 at.2)
      pure (map entry_of entries)

    abbrev stat_of : Option Entry → DirEntry
    stat_of none = record { name = 47 ∷ []; is_dir = true; size = 0; mtime_ms = none }
    stat_of (some e) = entry_of e

    unfoldable stat : List ℕ → M d.State DirEntry
    stat path = do found ← via (lookup (disk_of d) fs path); pure (stat_of found)

    unfoldable read_at : List ℕ → (offset n : ℕ) → M d.State (List ℕ)
    read_at path offset n = do
      found ← via (lookup (disk_of d) fs path)
      entry ← lift (ok_or found (filesystem "cannot read the root directory"))
      via (read_file (disk_of d) fs.geo entry offset n)

    unfoldable write_at : List ℕ → (offset : ℕ) → List ℕ → M d.State ℕ
    write_at path offset buf = via (write_file (disk_of d) fs path offset buf)

    unfoldable create : List ℕ → M d.State (Unit {0})
    create path = via (create_file (disk_of d) fs path)

    unfoldable mkdir : List ℕ → M d.State (Unit {0})
    mkdir path = via (make_dir (disk_of d) fs path)

    unfoldable move : (from to : List ℕ) → M d.State (Unit {0})
    move from to = via (rename (disk_of d) fs from to)

    unfoldable unlink : List ℕ → M d.State (Unit {0})
    unlink path = via (remove (disk_of d) fs path)

    unfoldable truncate : List ℕ → (len : ℕ) → M d.State (Unit {0})
    truncate path len = via (truncate_file (disk_of d) fs path len)

    unfoldable flush : M d.State (Unit {0})
    flush = pure tt

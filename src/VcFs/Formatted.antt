-- ===== src/VcFs/Formatted.antt =====
-- A volume that core/norse-exfat/src/format.rs has formatted is one that core/vc-fs knows and opens.
use vault_pony_core.Prelude.{
  ℕ, ◌+◌, ◌≤◌, ◌^◌, ◌<◌, ◌≡◌, sym, ap, ◌∙◌, refl, true, some, List, [], length, leb, arith,
}
use vault_pony_core.Prelude.Slices.{slice, slice-slice, length-slice}
use vault_pony_core.Prelude.Bytes.{bytes_eq}
use vault_pony_core.Prelude.Results.{StateM, ok, ◌>>◌}
use vault_pony_core.Device.Store.{IsStore}
use vault_pony_core.Device.Runs.{
  Runs, Stored, Runs-bind, Runs-then, Runs-read, Runs-len, Runs-flush, Runs-lift,
}
use vault_pony_core.Exfat.Error.{Disk}
use vault_pony_core.Exfat.Sector.{exfat_name}
use vault_pony_core.Exfat.Layout.{Layout, plan}
use vault_pony_core.Exfat.Layout.Bounds.{plan-IsLayout}
use vault_pony_core.Exfat.Format.{boot_sector, percent}
use vault_pony_core.Exfat.Format.RoundTrip.{after_writes, write_volume-Writes, starts-StartsWith}
use vault_pony_core.VcFs.ExfatVfs.{disk_of, open_vfs, format_exfat}
use vault_pony_core.VcFs.Io.{FatCrate, map_err_M}
use vault_pony_core.VcFs.{NtfsCrate, exfat_vfs, open_volume}
use vault_pony_core.Device.{BlockDevice}
use vault_pony_core.Exfat.Upcase.{UpcaseTable, words_of, decompress}
use vault_pony_core.Exfat.Format.Boot.{geometry_for}
use vault_pony_core.Exfat.Format.Opening.{bitmap_for, format-Runs, open_volume-after_writes}
use vault_pony_core.VcFs.Detect.{exfat, sniff}

-- The name of the file system stands in the boot sector.
named :
    (l : Layout) (serial part : ℕ)
    → bytes_eq (slice 3 8 (boot_sector l serial part)) exfat_name ≡ true
unfolding boot_sector
named l serial part = refl

-- The boot region is recognised.
sniff-after_writes :
    (d : Disk) (store : IsStore d) (table xs : List ℕ) (serial : ℕ) (l : Layout)
    → length xs < 2 ^ 48
    → plan (length xs) (length table) ≡ ok l
    → sniff (slice 0 4096 (after_writes d store table xs l serial)) ≡ exfat
unfolding sniff
sniff-after_writes d store table xs serial l h e =
    let i = plan-IsLayout (length xs) (length table) l h e in
    let w = write_volume-Writes d store l table xs serial i in
    let ys = after_writes d store table xs l serial in
    let st = starts-StartsWith d store l serial (percent l) ys w.starts in
    let long : leb 11 (length (slice 0 4096 ys)) ≡ true = ground (
      arith,
      length-slice 0 4096 ys (omega (arith, w.size, i.after_boot, i.fat_fits, i.fat_end)),
    ) in
    let name : bytes_eq (slice 3 8 (slice 0 4096 ys)) exfat_name ≡ true =
      ap (λ b. bytes_eq b exfat_name)
        (slice-slice 0 4096 3 8 3 ys (omega arith) refl
          ∙ sym (slice-slice 0 512 3 8 3 ys (omega arith) refl)
          ∙ ap (slice 3 8) st.sector)
      ∙ named l serial (percent l) in
    rw (long, name)

-- The device of the adapter stores what the block device stores.
abbrev disk_of-IsStore : (d : BlockDevice) → IsStore d → IsStore (disk_of d)
disk_of-IsStore d store = record {
  IsLive = store.IsLive;
  content = store.content;
  len_value = λ s l. rw (store.len_value s l) refl;
  len_live = store.len_live;
  len_keeps = store.len_keeps;
  read_value = λ s off n l h. rw (store.read_value s off n l h) refl;
  read_live = store.read_live;
  read_keeps = store.read_keeps;
  write_value = λ s off b l h. rw (store.write_value s off b l h) refl;
  write_live = store.write_live;
  write_content = store.write_content;
  flush_value = λ s l. rw (store.flush_value s l) refl;
  flush_live = store.flush_live;
  flush_keeps = store.flush_keeps;
}

Runs-map_err :
    {E E' S X A : Type 0} (At : X → S → Type 0) (f : E → E') (m : StateM E S A) {x y : X} {a : A}
    → Runs At m x (ok a) y
    → Runs At (map_err_M f m) x (ok a) y
Runs-map_err At f m run s p = let (value, q) = run s p in rw value (refl, q)

-- A device of less than 2 ^ 48 bytes that `format_exfat` formats is opened by `open_volume` with the
-- exFAT adapter, over the geometry that was chosen, the up-case table that was written and the bitmap at
-- cluster 2; its length stays. The device stores bytes, the sizes are accepted, and the bytes of the
-- up-case table are at most 262,144 and decompress. The FAT and NTFS crates are any.
pub open_volume-format_exfat :
    (fat_crate : FatCrate) (ntfs_crate : NtfsCrate) (d : BlockDevice) (store : IsStore d)
    (table xs : List ℕ) (serial : ℕ) (l : Layout) (t : UpcaseTable)
    → length xs < 2 ^ 48
    → plan (length xs) (length table) ≡ ok l
    → length table ≤ 262_144
    → decompress [] (words_of table) ≡ ok t
    → (ys : List ℕ) × (length ys ≡ length xs)
      × Runs
          (Stored d store)
          (format_exfat d table serial >> open_volume fat_crate ntfs_crate d)
          xs
          (ok
            (exfat_vfs (record { geo = geometry_for l; upcase = t; bitmap = some (bitmap_for l) })))
          ys
unfolding format_exfat open_volume open_vfs
open_volume-format_exfat fat_crate ntfs_crate d store table xs serial l t h e short words =
    let disk = disk_of d in
    let kept = disk_of-IsStore d store in
    let i = plan-IsLayout (length xs) (length table) l h e in
    let w = write_volume-Writes disk kept l table xs serial i in
    let ys = after_writes disk kept table xs l serial in
    let At = Stored d store in
    let room : 0 + 4096 ≤ length ys = omega (arith, w.size, i.after_boot, i.fat_fits, i.fat_end) in
    (
      ys,
      w.size,
      Runs-then At (format_exfat d table serial) _
          (Runs-bind At _ _ (Runs-map_err At _ disk.len (Runs-len disk kept xs)) (
            Runs-then At _ _ (Runs-map_err At _ _ (format-Runs disk kept l table xs serial h e))
              (Runs-map_err At _ disk.flush (Runs-flush disk kept ys))))
          (Runs-bind At _ _ (Runs-read d store 0 4096 ys room) (
            rw (sniff-after_writes disk kept table xs serial l h e) (
              Runs-bind At _ _
                (Runs-map_err At _ _
                  (open_volume-after_writes disk kept l table xs serial t h e short words))
                (Runs-lift At _ ys)))),
    )

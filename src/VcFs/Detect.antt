-- ===== src/VcFs/Detect.antt =====
-- core/vc-fs/src/detect.rs: the file system that the first sectors announce.
use vault_pony_core.Prelude.{ℕ, ◌==◌, ◌&&◌, List, [], ◌∷◌, leb, length, get_or, if◌then◌else◌}
use vault_pony_core.Prelude.Slices.{slice}
use vault_pony_core.Prelude.Bytes.{bytes_eq}
use vault_pony_core.Exfat.Sector.{exfat_name}

pub data FsKind : Type 0 where
  fat exfat ntfs ext4 unknown : FsKind

abbrev ntfs_name : List ℕ
ntfs_name = 78 ∷ 84 ∷ 70 ∷ 83 ∷ 32 ∷ 32 ∷ 32 ∷ 32 ∷ []

unfoldable pub sniff : List ℕ → FsKind
sniff boot =
    if leb 11 (length boot) && bytes_eq (slice 3 8 boot) exfat_name
    then exfat
    else if leb 11 (length boot) && bytes_eq (slice 3 8 boot) ntfs_name
    then ntfs
    else if leb 1082 (length boot) && (get_or boot 1080 0 == 0x53 && get_or boot 1081 0 == 0xEF)
    then ext4
    else if leb 512 (length boot) && (get_or boot 510 0 == 0x55 && get_or boot 511 0 == 0xAA)
    then fat
    else unknown

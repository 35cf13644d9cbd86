-- ===== src/Exfat/Format.antt =====
-- core/norse-exfat/src/format.rs: what `format` writes. The bytes of src/upcase_data.rs are the argument
-- `upcase_table`.
pub mod Boot
pub mod Areas
pub mod Sizes
pub mod RoundTrip
pub mod Contents
pub mod Table
pub mod Reading
pub mod Opening
use vault_pony_core.Prelude.{
  ℕ, zero, suc, ◌+◌, ◌-◌, ◌*◌, ◌/◌, ◌%◌, ◌^◌, min, Bool, true, false, not, ◌||◌, List, [], ◌∷◌,
  ◌++◌, ◌==◌, if◌then◌else◌, length, get_or, set, replicate,
}
use vault_pony_core.Prelude.Slices.{splice}
use vault_pony_core.Prelude.Bytes.{contains, le32_bytes, le64_bytes}
use vault_pony_core.Prelude.Results.{lift, ◌>>=◌, ◌>>◌}
use vault_pony_core.Exfat.Error.{Disk, X, try_io}
use vault_pony_core.Exfat.Sector.{exfat_name, rolling}
use vault_pony_core.Exfat.Alloc.{put_bit}
use vault_pony_core.Exfat.Sets.{unit_bytes}
use vault_pony_core.Exfat.Layout.{
  Layout, bps, bps_shift, spc, bytes_per_cluster, upcase_first, root_first, used_clusters,
  cluster_off, plan,
}

abbrev pub rolling_checksum : (bytes skip : List ℕ) → ℕ
rolling_checksum bytes skip = rolling (contains skip) 0 0 bytes

abbrev fat_media : ℕ
fat_media = 0xFFFF_FFF8

abbrev pub fat_eof : ℕ
fat_eof = 0xFFFF_FFFF

abbrev pub set_word : List ℕ → ℕ → ℕ → List ℕ
set_word fat idx val = splice (idx * 4) (le32_bytes val) fat

-- The chain of `n` clusters from `first` on.
pub chain_words : List ℕ → (first n : ℕ) → List ℕ
chain_words fat first zero = fat
chain_words fat first (suc n) =
    chain_words (set_word fat first (if n == 0 then fat_eof else (first + 1) % 2 ^ 32)) (first + 1)
      n

unfoldable pub fat_bytes : Layout → List ℕ
unfolding chain_words
fat_bytes l =
    let blank = set_word (set_word (replicate (l.fat_length * bps) 0) 0 fat_media) 1 fat_eof in
    let with_bitmap = chain_words blank 2 l.bm_clusters in
    let with_upcase = chain_words with_bitmap (upcase_first l) l.upcase_clusters in
    chain_words with_upcase (root_first l) 1

-- `n` bits from number `bit` on.
pub set_bits : List ℕ → (bit n : ℕ) → List ℕ
set_bits bm bit zero = bm
set_bits bm bit (suc n) =
    set_bits (set bm (bit / 8) (put_bit (get_or bm (bit / 8) 0) (bit % 8) true)) (bit + 1) n

unfoldable pub bitmap_image : Layout → List ℕ
unfolding set_bits
bitmap_image l = set_bits (replicate (l.bm_clusters * bytes_per_cluster l) 0) 0 (root_first l - 1)

abbrev pub label : List ℕ
label = 86 ∷ 65 ∷ 85 ∷ 76 ∷ 84 ∷ 80 ∷ 79 ∷ 78 ∷ 89 ∷ []

unfoldable pub root_image : Layout → (upcase_table : List ℕ) → List ℕ
root_image l upcase_table =
    0x83
    ∷ length label
    ∷ (unit_bytes label
        ++ replicate 12 0
        ++ 0x81 ∷ replicate 19 0
        ++ le32_bytes 2
        ++ le64_bytes l.bitmap_bytes
        ++ 0x82 ∷ replicate 3 0
        ++ le32_bytes (rolling_checksum upcase_table [])
        ++ replicate 12 0
        ++ le32_bytes (upcase_first l)
        ++ le64_bytes (length upcase_table)
        ++ replicate (bytes_per_cluster l - 96) 0)

unfoldable pub boot_sector : Layout → (volume_serial percent_in_use : ℕ) → List ℕ
boot_sector l volume_serial percent_in_use =
    0xEB
    ∷ 0x76
    ∷ 0x90
    ∷ (exfat_name
        ++ replicate 61 0
        ++ le64_bytes l.total_sectors
        ++ le32_bytes l.fat_start
        ++ le32_bytes l.fat_length
        ++ le32_bytes l.heap_offset
        ++ le32_bytes l.cluster_count
        ++ le32_bytes (root_first l)
        ++ le32_bytes volume_serial
        ++ 0x00
          ∷ 0x01
          ∷ 0
          ∷ 0
          ∷ bps_shift
          ∷ l.spc_shift
          ∷ 1
          ∷ 0x80
          ∷ percent_in_use
          ∷ replicate 397 0
        ++ 0x55 ∷ 0xAA ∷ [])

-- `n` copies of a list, one after the other.
pub copies : ℕ → List ℕ → List ℕ
copies zero bs = []
copies (suc n) bs = bs ++ copies n bs

-- Sectors 0 to 10.
unfoldable pub boot_body : Layout → (volume_serial percent_in_use : ℕ) → List ℕ
unfolding copies
boot_body l volume_serial percent_in_use =
    boot_sector l volume_serial percent_in_use
    ++ copies 8 (replicate 508 0 ++ 0x00 ∷ 0x00 ∷ 0x55 ∷ 0xAA ∷ [])
    ++ replicate 1024 0

unfoldable pub checksum_sector : List ℕ → List ℕ
unfolding copies
checksum_sector body = copies 128 (le32_bytes (rolling_checksum body (106 ∷ 107 ∷ 112 ∷ [])))

unfoldable pub build_boot_region : Layout → (volume_serial percent_in_use : ℕ) → List ℕ
unfolding boot_body checksum_sector
build_boot_region l volume_serial percent_in_use =
    boot_body l volume_serial percent_in_use
    ++ checksum_sector (boot_body l volume_serial percent_in_use)

abbrev pub percent : Layout → ℕ
percent l = min (used_clusters l * 100 / l.cluster_count) 100 % 256

module _ (d : Disk) (upcase_table : List ℕ) where
  -- The writes, once the layout has been accepted.
  unfoldable pub write_volume : Layout → (volume_serial : ℕ) → X d.State (Unit {0})
  unfolding fat_bytes bitmap_image root_image build_boot_region
  write_volume l volume_serial = do
    try_io (d.write_at (l.fat_start * bps) (fat_bytes l))
    try_io (d.write_at (cluster_off l 2) (bitmap_image l))
    try_io (
        d.write_at (cluster_off l (upcase_first l)) (
          upcase_table
          ++ replicate (l.upcase_clusters * bytes_per_cluster l - length upcase_table) 0))
    try_io (d.write_at (cluster_off l (root_first l)) (root_image l upcase_table))
    try_io (d.write_at 0 (build_boot_region l volume_serial (percent l)))
    try_io (d.write_at (12 * bps) (build_boot_region l volume_serial (percent l)))
    try_io d.flush

  unfoldable pub format : (total_bytes volume_serial : ℕ) → X d.State (Unit {0})
  unfolding plan write_volume
  format total_bytes volume_serial = do
    l ← lift (plan total_bytes (length upcase_table))
    write_volume l volume_serial

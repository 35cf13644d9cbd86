-- ===== src/Exfat/Sector.antt =====
-- core/norse-exfat/src/boot.rs: the geometry of a volume, the boot sector and its checksum.
pub mod Laws
use vault_pony_core.Prelude.{
  ℕ, zero, suc, ◌+◌, ◌-◌, ◌^◌, Bool, true, false, not, ◌&&◌, ◌||◌, List, [], ◌∷◌, leb, ltb, ◌==◌,
  if◌then◌else◌, get_or, drop,
}
use vault_pony_core.Prelude.Slices.{slice}
use vault_pony_core.Prelude.Bytes.{bytes_eq, le32_at}
use vault_pony_core.Prelude.Words.{add32, add64, mul64, rotate_right}
use vault_pony_core.Prelude.Results.{ok, err, guard}
use vault_pony_core.Types.Pure.{◌>>=◌, ◌>>◌}
use vault_pony_core.Exfat.Error.{ExfatResult, invalid}

-- The fields of `Geometry` are 32-bit numbers.
pub record Geometry : Type 0 where
  pub bytes_per_sector : ℕ
  pub sectors_per_cluster : ℕ
  pub fat_offset_sectors : ℕ
  pub fat_length_sectors : ℕ
  pub cluster_heap_offset_sectors : ℕ
  pub cluster_count : ℕ
  pub root_first_cluster : ℕ

unfoldable pub cluster_bytes : Geometry → ℕ
cluster_bytes g = mul64 g.bytes_per_sector g.sectors_per_cluster

-- The test of every cluster number: the bound is a 32-bit sum.
abbrev pub in_range : Geometry → ℕ → Bool
in_range g cluster = not (ltb cluster 2 || leb (add32 g.cluster_count 2) cluster)

unfoldable pub cluster_offset : Geometry → ℕ → ExfatResult ℕ
unfolding cluster_bytes
cluster_offset g cluster =
    if in_range g cluster
    then ok (
        add64 (mul64 g.bytes_per_sector g.cluster_heap_offset_sectors)
          (mul64 (cluster - 2) (cluster_bytes g)))
    else err (invalid "cluster number out of range")

abbrev pub exfat_name : List ℕ
exfat_name = 69 ∷ 88 ∷ 70 ∷ 65 ∷ 84 ∷ 32 ∷ 32 ∷ 32 ∷ []

abbrev pub all_zero : List ℕ → Bool
all_zero [] = true
all_zero (b ∷ bs) = b == 0 && all_zero bs

-- The sum over the bytes from index `i` on; `skip` says which are left out.
unfoldable pub rolling : (ℕ → Bool) → ℕ → ℕ → List ℕ → ℕ
rolling skip i sum [] = sum
rolling skip i sum (b ∷ bs) =
    rolling skip (i + 1) (if skip i then sum else add32 (rotate_right 32 sum) b) bs

abbrev pub boot_skip : ℕ → Bool
boot_skip i = i == 106 || (i == 107 || i == 112)

-- `chunks_exact(4)` by the number of chunks: each is the checksum.
unfoldable pub repeats : ℕ → ℕ → List ℕ → Bool
repeats zero sum bs = true
repeats (suc n) sum bs = le32_at bs 0 == sum && repeats n sum (drop 4 bs)

-- The boot sector's fields, once its signatures and shifts have been tested.
unfoldable pub geometry_of : List ℕ → Geometry
geometry_of bs = record {
  bytes_per_sector = 2 ^ get_or bs 108 0;
  sectors_per_cluster = 2 ^ get_or bs 109 0;
  fat_offset_sectors = le32_at bs 80;
  fat_length_sectors = le32_at bs 84;
  cluster_heap_offset_sectors = le32_at bs 88;
  cluster_count = le32_at bs 92;
  root_first_cluster = le32_at bs 96;
}

unfoldable pub parse_boot_sector : List ℕ → ExfatResult Geometry
unfolding geometry_of
parse_boot_sector bs = do
  guard (bytes_eq (slice 3 8 bs) exfat_name) (invalid "missing EXFAT signature")
  guard (get_or bs 510 0 == 0x55 && get_or bs 511 0 == 0xAA) (invalid "missing boot signature")
  guard (all_zero (slice 11 53 bs)) (invalid "MustBeZero region is not zero")
  guard (leb 9 (get_or bs 108 0) && leb (get_or bs 108 0) 12)
      (invalid "BytesPerSectorShift out of range")
  guard (leb (get_or bs 109 0) (25 - get_or bs 108 0))
      (invalid "SectorsPerClusterShift out of range")
  guard (leb 24 (geometry_of bs).fat_offset_sectors) (invalid "FatOffset overlaps boot regions")
  guard (in_range (geometry_of bs) (geometry_of bs).root_first_cluster)
      (invalid "root cluster out of range")
  ok (geometry_of bs)

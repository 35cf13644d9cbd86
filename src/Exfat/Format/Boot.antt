-- ===== src/Exfat/Format/Boot.antt =====
-- The boot region that core/norse-exfat/src/format.rs builds is one that src/boot.rs accepts.
use vault_pony_core.Prelude.{
  ℕ, zero, suc, ◌^◌, ◌<◌, ◌≡◌, refl, ap, ◌∙◌, true, List, [], ◌∷◌, leb, arith,
}
use vault_pony_core.Prelude.Bytes.{contains, le32_bytes, from_be32_bytes}
use vault_pony_core.Prelude.Results.{ok}
use vault_pony_core.Types.Pure.{guard_pass}
use vault_pony_core.Exfat.Sector.{
  Geometry, in_range, geometry_of, parse_boot_sector, boot_skip, rolling, repeats,
}
use vault_pony_core.Exfat.Sector.Laws.{rolling-bound, rolling-ext, repeats_next}
use vault_pony_core.Exfat.Layout.{Layout, root_first}
use vault_pony_core.Exfat.Layout.Bounds.{IsLayout}
use vault_pony_core.Exfat.Format.{boot_sector, copies, checksum_sector, rolling_checksum}

-- The geometry that a layout stands for.
abbrev pub geometry_for : Layout → Geometry
geometry_for l = record {
  bytes_per_sector = 512;
  sectors_per_cluster = 2 ^ l.spc_shift;
  fat_offset_sectors = l.fat_start;
  fat_length_sectors = l.fat_length;
  cluster_heap_offset_sectors = l.heap_offset;
  cluster_count = l.cluster_count;
  root_first_cluster = root_first l;
}

module _ (total_bytes upcase_len : ℕ) (l : Layout) (i : IsLayout total_bytes upcase_len l)
    (volume_serial percent_in_use : ℕ) where
  abbrev bs : List ℕ
  bs = boot_sector l volume_serial percent_in_use

  -- The boot sector's fields are read back.
  geometry_of-boot_sector : geometry_of bs ≡ geometry_for l
  unfolding geometry_of boot_sector
  geometry_of-boot_sector =
      let start = from_be32_bytes l.fat_start (omega (arith, i.fat_end, i.heap)) in
      let len = from_be32_bytes l.fat_length (omega (arith, i.fat_end, i.heap)) in
      let heap = from_be32_bytes l.heap_offset i.heap in
      let count = from_be32_bytes l.cluster_count (omega (arith, i.clusters)) in
      let root = from_be32_bytes (root_first l) (omega (arith, i.clusters, i.root_in)) in
      rw (start, len, heap, count, root)

  pub parse_boot_sector-boot_sector : parse_boot_sector bs ≡ ok (geometry_for l)
  unfolding parse_boot_sector boot_sector
  parse_boot_sector-boot_sector =
      let root_ok : in_range (geometry_for l) (root_first l) ≡ true =
        ground (arith, i.clusters, i.root_in) in
      let start_ok : leb 24 l.fat_start ≡ true = ground (arith, i.after_boot) in
      let shift_ok : leb l.spc_shift 16 ≡ true = ground (arith, i.shift) in
      guard_pass _ _ _ shift_ok (
        guard_pass _ _ _ (ap (λ g. leb 24 g.fat_offset_sectors) geometry_of-boot_sector ∙ start_ok)
          (guard_pass _ _ _
            (ap (λ g. in_range g g.root_first_cluster) geometry_of-boot_sector ∙ root_ok)
            (ap ok geometry_of-boot_sector)))

-- The test of the reader leaves out the bytes that the writer left out.
boot_skip_lem : (j : ℕ) → boot_skip j ≡ contains (106 ∷ 107 ∷ 112 ∷ []) j
boot_skip_lem j = ground arith

repeats-copies : (n sum : ℕ) → sum < 2 ^ 32 → repeats n sum (copies n (le32_bytes sum)) ≡ true
unfolding repeats copies
repeats-copies zero sum h = refl
repeats-copies (suc n) sum h =
    repeats_next n sum (copies n (le32_bytes sum)) h (repeats-copies n sum h)

-- The checksum sector repeats what the reader computes of the other sectors.
pub repeats-checksum_sector :
    (body : List ℕ) → repeats 128 (rolling boot_skip 0 0 body) (checksum_sector body) ≡ true
unfolding checksum_sector
repeats-checksum_sector body =
    let sum = rolling_checksum body (106 ∷ 107 ∷ 112 ∷ []) in
    ap (λ s. repeats 128 s (copies 128 (le32_bytes sum)))
      (rolling-ext boot_skip (contains (106 ∷ 107 ∷ 112 ∷ [])) 0 0 body boot_skip_lem)
    ∙ repeats-copies 128 sum (rolling-bound _ 0 0 body (omega arith))

-- ===== src/Exfat/Layout.antt =====
-- core/norse-exfat/src/format.rs: the sizes that `format` chooses. Its 64-bit numbers stay below 2 ^ 64,
-- since each is at most the length of the volume or close to it, so they are written without a wrap.
pub mod Bounds
use vault_pony_core.Prelude.{
  ℕ, ◌+◌, ◌-◌, ◌*◌, ◌/◌, ◌%◌, ◌^◌, min, Bool, true, false, not, ◌||◌, List, ltb, leb, ◌==◌,
  if◌then◌else◌,
}
use vault_pony_core.Prelude.Words.{div_ceil}
use vault_pony_core.Prelude.Results.{ok, err, guard}
use vault_pony_core.Types.Pure.{◌>>=◌, ◌>>◌}
use vault_pony_core.Exfat.Error.{ExfatResult, invalid}

abbrev pub bps_shift : ℕ
bps_shift = 9

abbrev pub bps : ℕ
bps = 512

abbrev pub boot_sectors : ℕ
boot_sectors = 24

abbrev pub round_up : ℕ → ℕ → ℕ
round_up a m = div_ceil a m * m

unfoldable pub choose_spc_shift : ℕ → ℕ
choose_spc_shift total_bytes =
    if leb total_bytes (256 * 2 ^ 20) then 3 else if leb total_bytes (32 * 2 ^ 30) then 6 else 8

pub record Layout : Type 0 where
  pub total_sectors : ℕ
  pub spc_shift : ℕ
  pub fat_start : ℕ
  pub fat_length : ℕ
  pub heap_offset : ℕ
  pub cluster_count : ℕ
  pub bitmap_bytes : ℕ
  pub bm_clusters : ℕ
  pub upcase_clusters : ℕ

abbrev pub spc : Layout → ℕ
spc l = 2 ^ l.spc_shift

abbrev pub bytes_per_cluster : Layout → ℕ
bytes_per_cluster l = bps * spc l

abbrev pub upcase_first : Layout → ℕ
upcase_first l = 2 + l.bm_clusters

abbrev pub root_first : Layout → ℕ
root_first l = upcase_first l + l.upcase_clusters

abbrev pub used_clusters : Layout → ℕ
used_clusters l = l.bm_clusters + l.upcase_clusters + 1

abbrev pub cluster_off : Layout → ℕ → ℕ
cluster_off l cluster = l.heap_offset * bps + (cluster - 2) * bytes_per_cluster l

-- The layout for clusters of 2 ^ `shift` sectors, before the tests of `format`.
unfoldable pub layout_with : (shift total_bytes upcase_len : ℕ) → Layout
layout_with shift total_bytes upcase_len =
    let sectors = total_bytes / bps in
    let per = 2 ^ shift in
    let fat_start = round_up boot_sectors per in
    let fat_length = round_up (div_ceil (((sectors - fat_start) / per + 2) * 4) bps) per in
    let heap_offset = fat_start + fat_length in
    let clusters = (sectors - heap_offset) / per in
    record {
      total_sectors = sectors;
      spc_shift = shift;
      fat_start = fat_start;
      fat_length = fat_length;
      heap_offset = heap_offset;
      cluster_count = clusters;
      bitmap_bytes = div_ceil clusters 8;
      bm_clusters = div_ceil (div_ceil clusters 8) (bps * per);
      upcase_clusters = div_ceil upcase_len (bps * per);
    }

unfoldable pub layout_of : (total_bytes upcase_len : ℕ) → Layout
unfolding layout_with
layout_of total_bytes upcase_len = layout_with (choose_spc_shift total_bytes) total_bytes upcase_len

-- The tests, in the order of the source.
unfoldable pub plan : (total_bytes upcase_len : ℕ) → ExfatResult Layout
unfolding layout_of
plan total_bytes upcase_len =
    let l = layout_of total_bytes upcase_len in
    do
      guard (not (leb l.total_sectors l.fat_start)) (invalid "volume too small for exFAT")
      guard (not (leb l.total_sectors l.heap_offset)) (invalid "volume too small for exFAT")
      guard
          (not
            (ltb l.cluster_count (used_clusters l) || ltb (l.cluster_count + 2) (root_first l + 1)))
          (invalid "volume too small for exFAT metadata")
      ok l

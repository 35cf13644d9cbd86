-- ===== src/Exfat/Format/Areas.antt =====
-- The areas that core/norse-exfat/src/format.rs writes: each lies inside the device.
use vault_pony_core.Prelude.{
  ℕ, ◌+◌, ◌-◌, ◌*◌, ◌≤◌, ◌≡◌, ◌∙◌, List, ◌++◌, length, replicate, length-append, length-replicate,
  arith,
}
use vault_pony_core.Prelude.Slices.{splice, length-splice}
use vault_pony_core.Exfat.Layout.{
  Layout, bps, bytes_per_cluster, upcase_first, root_first, cluster_off,
}
use vault_pony_core.Exfat.Layout.Bounds.{IsLayout}
use vault_pony_core.Exfat.Format.{build_boot_region, fat_bytes, bitmap_image, root_image, percent}
use vault_pony_core.Exfat.Format.Sizes.{
  length-fat_bytes, length-bitmap_image, length-root_image, length-build_boot_region,
}

-- The up-case table, filled with zeros to the end of its last cluster.
abbrev pub padded : Layout → List ℕ → List ℕ
padded l table = table ++ replicate (l.upcase_clusters * bytes_per_cluster l - length table) 0

pub record AreasFit (n : ℕ) (l : Layout) (table : List ℕ) (serial : ℕ) : Type 0 where
  pub fat : l.fat_start * bps + length (fat_bytes l) ≤ n
  pub bitmap : cluster_off l 2 + length (bitmap_image l) ≤ n
  pub upcase : cluster_off l (upcase_first l) + length (padded l table) ≤ n
  pub root : cluster_off l (root_first l) + length (root_image l table) ≤ n
  pub main : 0 + length (build_boot_region l serial (percent l)) ≤ n
  pub backup : 6144 + length (build_boot_region l serial (percent l)) ≤ n

pub areas_fit :
    (n : ℕ) (l : Layout) (table : List ℕ) (serial : ℕ)
    → IsLayout n (length table) l
    → AreasFit n l table serial
areas_fit n l table serial i =
    let pad = l.upcase_clusters * bytes_per_cluster l - length table in
    let long = length-build_boot_region l serial (percent l) in
    record {
      fat = omega (arith, length-fat_bytes l i.heads, i.fat_fits, i.fat_end);
      bitmap = omega (arith, length-bitmap_image l, i.bitmap_end);
      upcase = omega (
        arith,
        length-append table (replicate pad 0),
        length-replicate {A = ℕ} pad 0,
        i.upcase_end,
        i.upcase_fits,
      );
      root = omega (arith, length-root_image l table i.roomy, i.root_end);
      main = omega (arith, long, i.after_boot, i.fat_fits, i.fat_end);
      backup = omega (arith, long, i.after_boot, i.fat_fits, i.fat_end);
    }

-- A write that fits keeps the length.
pub splice_keeps :
    (n off : ℕ) (bs xs : List ℕ)
    → length xs ≡ n
    → off + length bs ≤ n
    → length (splice off bs xs) ≡ n
splice_keeps n off bs xs e f = length-splice off bs xs (omega (arith, e, f)) ∙ e

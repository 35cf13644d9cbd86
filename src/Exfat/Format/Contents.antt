-- ===== src/Exfat/Format/Contents.antt =====
-- What stands where on a disk that core/norse-exfat/src/format.rs has written.
use vault_pony_core.Prelude.{
  ℕ, ◌+◌, ◌-◌, ◌*◌, ◌≤◌, ◌≡◌, refl, ◌∙◌, inl, inr, List, length, replicate, length-append,
  length-replicate, arith,
}
use vault_pony_core.Prelude.Slices.{slice, splice, slice-splice_self, slice-splice_apart}
use vault_pony_core.Device.Store.{IsStore}
use vault_pony_core.Exfat.Error.{Disk}
use vault_pony_core.Exfat.Layout.{
  Layout, bps, bytes_per_cluster, upcase_first, root_first, cluster_off,
}
use vault_pony_core.Exfat.Layout.Bounds.{IsLayout}
use vault_pony_core.Exfat.Format.{build_boot_region, fat_bytes, bitmap_image, root_image, percent}
use vault_pony_core.Exfat.Format.Sizes.{
  length-fat_bytes, length-bitmap_image, length-root_image, length-build_boot_region,
}
use vault_pony_core.Exfat.Format.Areas.{padded, areas_fit, splice_keeps}
use vault_pony_core.Exfat.Format.RoundTrip.{after_writes}

-- The table of clusters, the up-case table and the root directory.
pub record Contents (l : Layout) (table ys : List ℕ) : Type 0 where
  pub fat_there : slice (l.fat_start * bps) (l.fat_length * bps) ys ≡ fat_bytes l
  pub upcase_there :
      slice (cluster_off l (upcase_first l)) (l.upcase_clusters * bytes_per_cluster l) ys
      ≡ padded l table
  pub root_there :
      slice (cluster_off l (root_first l)) (bytes_per_cluster l) ys ≡ root_image l table

pub length-padded :
    (l : Layout) (table : List ℕ)
    → length table ≤ l.upcase_clusters * bytes_per_cluster l
    → length (padded l table) ≡ l.upcase_clusters * bytes_per_cluster l
length-padded l table h =
    let pad = l.upcase_clusters * bytes_per_cluster l - length table in
    omega (arith, length-append table (replicate pad 0), length-replicate {A = ℕ} pad 0)

-- Clusters in their order.
next_cluster :
    (l : Layout)
    → (cluster_off l (upcase_first l) ≡ l.heap_offset * bps + l.bm_clusters * bytes_per_cluster l)
      × (cluster_off l (root_first l)
          ≡ cluster_off l (upcase_first l) + l.upcase_clusters * bytes_per_cluster l)
next_cluster l = grind arith

pub after_writes-Contents :
    (d : Disk) (store : IsStore d) (l : Layout) (table xs : List ℕ) (serial : ℕ)
    → IsLayout (length xs) (length table) l
    → Contents l table (after_writes d store table xs l serial)
after_writes-Contents d store l table xs serial i =
    let n = length xs in
    let boot = build_boot_region l serial (percent l) in
    let long = length-build_boot_region l serial (percent l) in
    let up = padded l table in
    let a = areas_fit n l table serial i in
    let (up_at, root_at) = next_cluster l in
    let fat_size = length-fat_bytes l i.heads in
    let up_size = length-padded l table i.upcase_fits in
    let bm_size = length-bitmap_image l in
    let root_size = length-root_image l table i.roomy in
    let x1 = splice (l.fat_start * bps) (fat_bytes l) xs in
    let e1 = splice_keeps n (l.fat_start * bps) (fat_bytes l) xs refl a.fat in
    let x2 = splice (cluster_off l 2) (bitmap_image l) x1 in
    let e2 = splice_keeps n (cluster_off l 2) (bitmap_image l) x1 e1 a.bitmap in
    let x3 = splice (cluster_off l (upcase_first l)) up x2 in
    let e3 = splice_keeps n (cluster_off l (upcase_first l)) up x2 e2 a.upcase in
    let x4 = splice (cluster_off l (root_first l)) (root_image l table) x3 in
    let e4 = splice_keeps n (cluster_off l (root_first l)) (root_image l table) x3 e3 a.root in
    let x5 = splice 0 boot x4 in
    let e5 = splice_keeps n 0 boot x4 e4 a.main in
    let past_boot : (off k : ℕ)
        → 12_288 ≤ off
        → slice off k (splice 6144 boot x5) ≡ slice off k x4 =
      λ off k h.
        slice-splice_apart off k 6144 boot x5 (omega (arith, e5, a.backup))
          (inl (omega (arith, long)))
        ∙ slice-splice_apart off k 0 boot x4 (omega (arith, e4, a.main))
            (inl (omega (arith, long))) in
    record {
      fat_there =
          past_boot (l.fat_start * bps) (l.fat_length * bps) (omega (arith, i.after_boot))
          ∙ slice-splice_apart (l.fat_start * bps) (l.fat_length * bps)
              (cluster_off l (root_first l)) (root_image l table) x3 (omega (arith, e3, a.root))
              (inr (omega (arith, i.fat_end, up_at, root_at)))
          ∙ slice-splice_apart (l.fat_start * bps) (l.fat_length * bps)
              (cluster_off l (upcase_first l)) up x2 (omega (arith, e2, a.upcase))
              (inr (omega (arith, i.fat_end, up_at)))
          ∙ slice-splice_apart (l.fat_start * bps) (l.fat_length * bps) (cluster_off l 2)
              (bitmap_image l) x1 (omega (arith, e1, a.bitmap)) (inr (omega (arith, i.fat_end)))
          ∙ slice-splice_self (l.fat_start * bps) (l.fat_length * bps) (fat_bytes l) xs
              (omega (arith, a.fat, fat_size)) fat_size;
      upcase_there =
          past_boot (cluster_off l (upcase_first l)) (l.upcase_clusters * bytes_per_cluster l)
            (omega (arith, i.after_boot, i.fat_end, up_at))
          ∙ slice-splice_apart (cluster_off l (upcase_first l))
              (l.upcase_clusters * bytes_per_cluster l) (cluster_off l (root_first l))
              (root_image l table) x3 (omega (arith, e3, a.root)) (inr (omega (arith, root_at)))
          ∙ slice-splice_self (cluster_off l (upcase_first l))
              (l.upcase_clusters * bytes_per_cluster l) up x2 (omega (arith, e2, a.upcase)) up_size;
      root_there =
          past_boot (cluster_off l (root_first l)) (bytes_per_cluster l)
            (omega (arith, i.after_boot, i.fat_end, up_at, root_at))
          ∙ slice-splice_self (cluster_off l (root_first l)) (bytes_per_cluster l)
              (root_image l table) x3 (omega (arith, e3, a.root)) root_size;
    }

-- ===== src/Exfat/Format/RoundTrip.antt =====
-- A volume that core/norse-exfat/src/format.rs has formatted is one that src/boot.rs opens.
use vault_pony_core.Prelude.{
  ℕ, ◌+◌, ◌*◌, ◌/◌, ◌≤◌, ◌≡◌, refl, sym, ap, ◌∙◌, inr, List, length, take-append, drop-append, take,
  take_all, true, arith,
}
use vault_pony_core.Prelude.Slices.{
  slice, splice, slice-slice, slice-splice_self, slice-splice_apart,
}
use vault_pony_core.Prelude.Results.{ok, ◌>>◌}
use vault_pony_core.Device.Store.{IsStore}
use vault_pony_core.Device.Runs.{
  Runs, Stored, Runs-lift, Runs-bind, Runs-then, Runs-value, Runs-read, Runs-write, Runs-flush,
}
use vault_pony_core.Exfat.Error.{Disk, X, try_io}
use vault_pony_core.Exfat.Runs.{Runs-try_io}
use vault_pony_core.Exfat.Sector.{parse_boot_sector, boot_skip, rolling, repeats}
use vault_pony_core.Exfat.Boot.{read_boot_region, verify_vbr_checksum}
use vault_pony_core.Exfat.Layout.{Layout, bps, upcase_first, root_first, cluster_off}
use vault_pony_core.Exfat.Layout.Bounds.{IsLayout}
use vault_pony_core.Exfat.Format.{
  boot_sector, boot_body, checksum_sector, build_boot_region, fat_bytes, bitmap_image, root_image,
  percent, write_volume,
}
use vault_pony_core.Exfat.Format.Sizes.{
  length-boot_body, length-checksum_sector, length-build_boot_region, take-boot_body,
}
use vault_pony_core.Exfat.Format.Areas.{padded, areas_fit, splice_keeps}
use vault_pony_core.Exfat.Format.Boot.{
  geometry_for, parse_boot_sector-boot_sector, repeats-checksum_sector,
}

module _ (d : Disk) (store : IsStore d) where
  abbrev At : List ℕ → d.State → Type 0
  At = Stored d store

  -- A disk that starts with a boot region: its first sector, the sectors under the checksum, and the
  -- checksum's own.
  pub record StartsWith (l : Layout) (serial part : ℕ) (xs : List ℕ) : Type 0 where
    pub sector : slice 0 512 xs ≡ boot_sector l serial part
    body : slice 0 5632 xs ≡ boot_body l serial part
    sum : slice 5632 512 xs ≡ checksum_sector (boot_body l serial part)

  pub starts-StartsWith :
      (l : Layout) (serial part : ℕ) (xs : List ℕ)
      → slice 0 6144 xs ≡ build_boot_region l serial part
      → StartsWith l serial part xs
  unfolding build_boot_region
  starts-StartsWith l serial part xs e =
      let b = boot_body l serial part in
      let c = checksum_sector b in
      let whole =
        sym (slice-slice 0 6144 0 5632 0 xs (omega arith) refl)
        ∙ ap (slice 0 5632) e
        ∙ take-append 5632 b c (sym (length-boot_body l serial part)) in
      record {
        body = whole;
        sector =
            sym (slice-slice 0 5632 0 512 0 xs (omega arith) refl)
            ∙ ap (slice 0 512) whole
            ∙ take-boot_body l serial part;
        sum =
            sym (slice-slice 0 6144 5632 512 5632 xs (omega arith) refl)
            ∙ ap (slice 5632 512) e
            ∙ ap (take 512) (drop-append 5632 b c (sym (length-boot_body l serial part)))
            ∙ take_all 512 c (omega (arith, length-checksum_sector b));
      }

  verify_vbr_checksum-starts :
      (l : Layout) (serial part : ℕ) (xs : List ℕ)
      → 6144 ≤ length xs
      → StartsWith l serial part xs
      → Runs At (verify_vbr_checksum d 512) xs (ok tt) xs
  unfolding verify_vbr_checksum
  verify_vbr_checksum-starts l serial part xs h starts =
      let b = boot_body l serial part in
      let same : repeats (length (slice 5632 512 xs) / 4) (rolling boot_skip 0 0 (slice 0 5632 xs))
            (slice 5632 512 xs)
          ≡ true =
        rw (starts.sum, starts.body, length-checksum_sector b) (repeats-checksum_sector b) in
      Runs-bind At _ _ (Runs-try_io At _ (Runs-read d store 0 5632 xs (omega arith))) (
        Runs-bind At _ _ (Runs-try_io At _ (Runs-read d store 5632 512 xs (omega arith)))
          (λ s p. (rw same, p)))

  pub read_boot_region-starts :
      (total_bytes upcase_len : ℕ) (l : Layout) (serial part : ℕ) (xs : List ℕ)
      → IsLayout total_bytes upcase_len l
      → 6144 ≤ length xs
      → slice 0 6144 xs ≡ build_boot_region l serial part
      → Runs At (read_boot_region d) xs (ok (geometry_for l)) xs
  unfolding read_boot_region
  read_boot_region-starts total_bytes upcase_len l serial part xs i h e =
      let starts = starts-StartsWith l serial part xs e in
      Runs-bind At _ _ (Runs-try_io At _ (Runs-read d store 0 512 xs (omega arith))) (
        Runs-value At (parse_boot_sector (slice 0 512 xs)) _
          (ap parse_boot_sector starts.sector
            ∙ parse_boot_sector-boot_sector total_bytes upcase_len l i serial part)
          (Runs-then At (verify_vbr_checksum d 512) _
            (verify_vbr_checksum-starts l serial part xs h starts)
            (Runs-lift At (ok (geometry_for l)) xs)))

  -- The state that `format` leaves starts with the boot region.
  abbrev pub after_writes : (table xs : List ℕ) → Layout → ℕ → List ℕ
  after_writes table xs l serial =
      let boot = build_boot_region l serial (percent l) in
      splice 6144 boot (
        splice 0 boot (
          splice (cluster_off l (root_first l)) (root_image l table) (
            splice (cluster_off l (upcase_first l)) (padded l table) (
              splice (cluster_off l 2) (bitmap_image l)
                (splice (l.fat_start * bps) (fat_bytes l) xs)))))

  -- A write that fits into the `n` bytes of the disk, before the rest of the writes.
  Runs-write_next :
      (n off : ℕ) (bs xs : List ℕ) (k : X d.State (Unit {0})) {zs : List ℕ}
      → length xs ≡ n
      → off + length bs ≤ n
      → Runs At k (splice off bs xs) (ok tt) zs
      → Runs At (try_io (d.write_at off bs) >> k) xs (ok tt) zs
  Runs-write_next n off bs xs k e f next =
      Runs-then At _ k (Runs-try_io At _ (Runs-write d store off bs xs (omega (arith, e, f)))) next

  -- Each write keeps the length, so that the next one fits as well.
  pub record Writes (l : Layout) (table xs : List ℕ) (serial : ℕ) : Type 0 where
    pub runs : Runs At (write_volume d table l serial) xs (ok tt) (after_writes table xs l serial)
    pub size : length (after_writes table xs l serial) ≡ length xs
    pub starts :
        slice 0 6144 (after_writes table xs l serial) ≡ build_boot_region l serial (percent l)

  pub write_volume-Writes :
      (l : Layout) (table xs : List ℕ) (serial : ℕ)
      → IsLayout (length xs) (length table) l
      → Writes l table xs serial
  unfolding write_volume
  write_volume-Writes l table xs serial i =
      let n = length xs in
      let boot = build_boot_region l serial (percent l) in
      let long = length-build_boot_region l serial (percent l) in
      let up = padded l table in
      let a = areas_fit n l table serial i in
      let x1 = splice (l.fat_start * bps) (fat_bytes l) xs in
      let e1 = splice_keeps n (l.fat_start * bps) (fat_bytes l) xs refl a.fat in
      let x2 = splice (cluster_off l 2) (bitmap_image l) x1 in
      let e2 = splice_keeps n (cluster_off l 2) (bitmap_image l) x1 e1 a.bitmap in
      let x3 = splice (cluster_off l (upcase_first l)) up x2 in
      let e3 = splice_keeps n (cluster_off l (upcase_first l)) up x2 e2 a.upcase in
      let x4 = splice (cluster_off l (root_first l)) (root_image l table) x3 in
      let e4 = splice_keeps n (cluster_off l (root_first l)) (root_image l table) x3 e3 a.root in
      let x5 = splice 0 boot x4 in
      let e5 = splice_keeps n 0 boot x4 e4 a.main in
      record {
        runs = Runs-write_next n _ (fat_bytes l) xs _ refl a.fat (
            Runs-write_next n _ (bitmap_image l) x1 _ e1 a.bitmap (
              Runs-write_next n _ up x2 _ e2 a.upcase (
                Runs-write_next n _ (root_image l table) x3 _ e3 a.root (
                  Runs-write_next n 0 boot x4 _ e4 a.main (
                    Runs-write_next n 6144 boot x5 _ e5 a.backup
                      (Runs-try_io At _ (Runs-flush d store _)))))));
        size = splice_keeps n 6144 boot x5 e5 a.backup;
        starts =
            slice-splice_apart 0 6144 6144 boot x5 (omega (arith, e5, a.backup)) (inr (omega arith))
            ∙ slice-splice_self 0 6144 boot x4 (omega (arith, e4, a.main, long)) long;
      }

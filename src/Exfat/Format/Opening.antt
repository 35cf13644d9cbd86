-- ===== src/Exfat/Format/Opening.antt =====
-- A volume that core/norse-exfat/src/format.rs has formatted is one that src/lib.rs opens.
use vault_pony_core.Prelude.{
  ℕ, suc, ◌-◌, ◌/◌, ◌^◌, ◌≤◌, ◌<◌, ◌≡◌, sym, ap, subst, ◌∙◌, Bool, false, none, some, List, [],
  length, ◌==◌, arith,
}
use vault_pony_core.Prelude.Bytes.{from_be32_bytes, from_be64_bytes}
use vault_pony_core.Prelude.Results.{ok, ◌>>◌}
use vault_pony_core.Device.Store.{IsStore}
use vault_pony_core.Device.Runs.{
  Runs, Stored, Runs-lift, Runs-bind, Runs-then, Runs-value, Runs-read,
}
use vault_pony_core.Exfat.Error.{Disk}
use vault_pony_core.Exfat.Runs.{Runs-try_io}
use vault_pony_core.Exfat.Sector.{Geometry}
use vault_pony_core.Exfat.Boot.{read_boot_region}
use vault_pony_core.Exfat.Alloc.{BitmapLoc}
use vault_pony_core.Exfat.Upcase.{UpcaseTable, words_of, decompress}
use vault_pony_core.Exfat.Dir.{
  chunks, chunks_exact, done, walk_cluster, walk_clusters, clusters_of, walk_raw_entries,
}
use vault_pony_core.Exfat.Sets.{unit_bytes}
use vault_pony_core.Exfat.Fs.{
  ExfatFs, unbounded, see_bitmap, see_upcase, find_bitmap_entry, find_upcase_entry, open_volume,
}
use vault_pony_core.Exfat.Layout.{
  Layout, bytes_per_cluster, upcase_first, root_first, cluster_off, plan,
}
use vault_pony_core.Exfat.Layout.Bounds.{IsLayout, plan-IsLayout}
use vault_pony_core.Exfat.Format.{root_image, format, percent}
use vault_pony_core.Exfat.Format.Sizes.{length-root_image}
use vault_pony_core.Exfat.Format.Boot.{geometry_for}
use vault_pony_core.Exfat.Format.RoundTrip.{
  after_writes, write_volume-Writes, read_boot_region-starts,
}
use vault_pony_core.Exfat.Format.Contents.{Contents, after_writes-Contents}
use vault_pony_core.Exfat.Format.Reading.{
  cluster_offset_lem, read_chain-root, load_lem, cluster_size,
}

-- The bitmap's place in the root directory.
abbrev pub bitmap_for : Layout → BitmapLoc
bitmap_for l = record { first_cluster = 2; length_bytes = l.bitmap_bytes }

module _ (l : Layout) (table : List ℕ) where
  abbrev entries_left : ℕ
  entries_left = bytes_per_cluster l / 32 - 3

  root_chunks :
      512 ≤ bytes_per_cluster l
      → chunks_exact 32 (root_image l table)
        ≡ chunks 32 (suc (suc (suc entries_left))) (root_image l table)
  root_chunks roomy =
      let count : length (root_image l table) / 32 ≡ suc (suc (suc entries_left)) =
        omega (arith, length-root_image l table roomy) in
      ap (λ n. chunks 32 n (root_image l table)) count

  walk_cluster-bitmap :
      512 ≤ bytes_per_cluster l
      → l.bitmap_bytes < 2 ^ 64
      → walk_cluster see_bitmap unbounded (chunks_exact 32 (root_image l table)) 0 none
        ≡ done (some (bitmap_for l))
  unfolding walk_cluster chunks root_image unit_bytes
  walk_cluster-bitmap roomy small =
      ap (λ raws. walk_cluster see_bitmap unbounded raws 0 none) (root_chunks roomy)
      ∙ ap (λ n. done (some (record { first_cluster = 2; length_bytes = n })))
          (from_be64_bytes l.bitmap_bytes small)

  walk_cluster-upcase :
      512 ≤ bytes_per_cluster l
      → upcase_first l < 2 ^ 32
      → length table < 2 ^ 64
      → walk_cluster see_upcase unbounded (chunks_exact 32 (root_image l table)) 0 none
        ≡ done (some (upcase_first l, length table))
  unfolding walk_cluster chunks root_image unit_bytes
  walk_cluster-upcase roomy first small =
      ap (λ raws. walk_cluster see_upcase unbounded raws 0 none) (root_chunks roomy) ∙ (λ k.
        done
          (some (from_be32_bytes (upcase_first l) first k, from_be64_bytes (length table) small k)))

module _ (d : Disk) (store : IsStore d) (l : Layout) (table : List ℕ) where
  abbrev At : List ℕ → d.State → Type 0
  At = Stored d store

  abbrev g : Geometry
  g = geometry_for l

  module _ (ys : List ℕ) (i : IsLayout (length ys) (length table) l) (small : length ys < 2 ^ 48)
      (c : Contents l table ys) where
    -- A walk that ends in the first cluster of the root directory.
    walk_root :
        {A : Type 0} (f : List ℕ → A → Bool × A) (a b : A)
        → walk_cluster f unbounded (chunks_exact 32 (root_image l table)) 0 a ≡ done b
        → Runs At (walk_raw_entries d g (root_first l) false unbounded f a) ys (ok b) ys
    unfolding walk_raw_entries clusters_of walk_clusters
    walk_root f a b e =
        let some_root : (root_first l == 0) ≡ false = ground arith in
        let size = cluster_size d store l table ys i small c in
        rw some_root (
          Runs-bind At _ _ (read_chain-root d store l table ys i small c) (
            Runs-value At _ _
              (cluster_offset_lem d store l table ys i small c (root_first l) (omega arith)
                (omega arith) (omega (arith, i.root_end)))
              (rw size (
                Runs-bind At _ _
                  (Runs-try_io At _ (
                    Runs-read d store (cluster_off l (root_first l)) (bytes_per_cluster l) ys
                      i.root_end))
                  (rw (c.root_there, e) (Runs-lift At (ok b) ys))))))

    open_volume-Contents :
        (t : UpcaseTable)
        → length table ≤ 262_144
        → decompress [] (words_of table) ≡ ok t
        → Runs At (read_boot_region d) ys (ok g) ys
        → Runs At
            (open_volume d)
            ys
            (ok (record { geo = g; upcase = t; bitmap = some (bitmap_for l) }))
            ys
    unfolding open_volume find_bitmap_entry find_upcase_entry
    open_volume-Contents t short e boot = Runs-bind At _ _ boot (
        Runs-bind At _ _
          (walk_root see_upcase none (some (upcase_first l, length table)) (
            walk_cluster-upcase l table i.roomy (omega (arith, i.below_marks))
              (omega (arith, short))))
          (Runs-bind At _ _ (load_lem d store l table ys i small c t short e) (
            Runs-bind At _ _
              (walk_root see_bitmap none (some (bitmap_for l))
                (walk_cluster-bitmap l table i.roomy i.bitmap_small))
              (Runs-lift At _ ys))))

  abbrev opened : UpcaseTable → ExfatFs
  opened t = record { geo = g; upcase = t; bitmap = some (bitmap_for l) }

  -- The two calls on the state between them.
  pub format-Runs :
      (xs : List ℕ) (serial : ℕ)
      → length xs < 2 ^ 48
      → plan (length xs) (length table) ≡ ok l
      → Runs At
          (format d table (length xs) serial)
          xs
          (ok tt)
          (after_writes d store table xs l serial)
  unfolding format
  format-Runs xs serial h e =
      let i = plan-IsLayout (length xs) (length table) l h e in
      Runs-value At (plan (length xs) (length table)) _ e
        (write_volume-Writes d store l table xs serial i).runs

  pub open_volume-after_writes :
      (xs : List ℕ) (serial : ℕ) (t : UpcaseTable)
      → length xs < 2 ^ 48
      → plan (length xs) (length table) ≡ ok l
      → length table ≤ 262_144
      → decompress [] (words_of table) ≡ ok t
      → let ys = after_writes d store table xs l serial in
        Runs At (open_volume d) ys (ok (opened t)) ys
  open_volume-after_writes xs serial t h e short words =
      let i = plan-IsLayout (length xs) (length table) l h e in
      let w = write_volume-Writes d store l table xs serial i in
      let ys = after_writes d store table xs l serial in
      let j : IsLayout (length ys) (length table) l =
        subst (λ n. IsLayout n (length table) l) (sym w.size) i in
      open_volume-Contents ys j (omega (arith, w.size))
        (after_writes-Contents d store l table xs serial i) t short words
        (read_boot_region-starts d store (length xs) (length table) l serial (percent l) ys i
          (omega (arith, w.size, i.after_boot, i.fat_fits, i.fat_end)) w.starts)

  -- A disk of less than 2 ^ 48 bytes that `format` accepts is formatted, and opening it then succeeds:
  -- the boot region, the root directory, the table of clusters and the up-case table are read back, and
  -- the volume has the geometry that was chosen, the up-case table that was given, and the bitmap at
  -- cluster 2. The disk keeps its length. It stores bytes and is as long as `format` is told, and the
  -- bytes of the up-case table are at most 262,144 and decompress.
  pub open_volume-format :
      (xs : List ℕ) (serial : ℕ) (t : UpcaseTable)
      → length xs < 2 ^ 48
      → plan (length xs) (length table) ≡ ok l
      → length table ≤ 262_144
      → decompress [] (words_of table) ≡ ok t
      → (ys : List ℕ) × (length ys ≡ length xs)
        × Runs At
            (format d table (length xs) serial >> open_volume d)
            xs
            (ok (record { geo = g; upcase = t; bitmap = some (bitmap_for l) }))
            ys
  open_volume-format xs serial t h e short words =
      let i = plan-IsLayout (length xs) (length table) l h e in
      (
        after_writes d store table xs l serial,
        (write_volume-Writes d store l table xs serial i).size,
        Runs-then At (format d table (length xs) serial) (open_volume d) (format-Runs xs serial h e)
            (open_volume-after_writes xs serial t h e short words),
      )

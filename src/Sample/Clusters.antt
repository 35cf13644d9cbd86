-- ===== src/Sample/Clusters.antt =====
-- Tests of the clusters of an exFAT volume on disks in memory.
use vault_pony_core.Prelude.{
  ℕ, ◌+◌, ◌*◌, ◌<◌, ◌≤◌, ◌≡◌, refl, false, none, some, List, [], ◌∷◌, ◌++◌, length, replicate,
  arith,
}
use vault_pony_core.Prelude.Results.{ok, ◌>>◌}
use vault_pony_core.Device.Runs.{Runs, Stored}
use vault_pony_core.Exfat.Sector.{Geometry, cluster_bytes, cluster_offset}
use vault_pony_core.Exfat.Dir.{Entry}
use vault_pony_core.Exfat.Alloc.{BitmapLoc, find_free}
use vault_pony_core.Exfat.Alloc.Free.{HasBitmap, bit, find_free_lem}
use vault_pony_core.Exfat.Ranges.{pieces, read_pieces, write_range}
use vault_pony_core.Exfat.Ranges.Place.{HasHeap}
use vault_pony_core.Exfat.Ranges.RoundTrip.{read_pieces-write_range}
use vault_pony_core.Sample.{ram, ram-IsStore}

-- Three clusters of 4 bytes, from byte 4 on.
abbrev cells : Geometry
cells = record {
  bytes_per_sector = 4;
  sectors_per_cluster = 1;
  fat_offset_sectors = 0;
  fat_length_sectors = 1;
  cluster_heap_offset_sectors = 1;
  cluster_count = 3;
  root_first_cluster = 2;
}

abbrev zeros : List ℕ
zeros = replicate 16 0

cells-HasHeap : HasHeap cells zeros
unfolding cluster_bytes
cells-HasHeap = record {
  fits = omega arith;
  small = omega arith;
  clusters = omega arith;
  roomy = omega arith;
}

abbrev file : Entry
file = record {
  name = 65 ∷ [];
  is_dir = false;
  size = 8;
  valid_size = 8;
  first_cluster = 4;
  no_fat_chain = false;
  mtime_ms = none;
}

-- Across the edge of two clusters that do not stand in the order of the file.
abbrev payload : List ℕ
payload = 1 ∷ 2 ∷ 3 ∷ 4 ∷ 5 ∷ []

long_enough : 2 + length payload ≤ length {A = ℕ} (4 ∷ 2 ∷ []) * cluster_bytes cells
unfolding cluster_bytes
long_enough = omega arith

read_pieces-write_range_example :
    (ys : List ℕ) × (length ys ≡ 16)
    × Runs
        (Stored ram ram-IsStore)
        (write_range ram cells (4 ∷ 2 ∷ []) 2 payload
          >> read_pieces ram cells file
              (some (4 ∷ 2 ∷ []))
              (pieces (cluster_bytes cells) (length payload) 2 (length payload)))
        zeros
        (ok payload)
        ys
read_pieces-write_range_example =
    read_pieces-write_range ram ram-IsStore cells (4 ∷ 2 ∷ []) (refl, (refl, tt))
      ((omega arith, tt), (tt, tt)) file 2 payload zeros cells-HasHeap long_enough (omega arith)
      (omega arith)

-- The bits of the clusters 2 and 4 are set.
abbrev bits : List ℕ
bits = replicate 4 0 ++ 5 ∷ []

abbrev bitmap_loc : BitmapLoc
bitmap_loc = record { first_cluster = 2; length_bytes = 1 }

bits-HasBitmap : HasBitmap cells bitmap_loc 4 bits
unfolding cluster_offset
bits-HasBitmap = record {
  at = refl;
  enough = omega arith;
  fits = omega arith;
  small = omega arith;
  clusters = omega arith;
}

find_free_lem_example :
    (c : ℕ) × (2 ≤ c)
    × (c < 5)
    × (bit 4 bits c ≡ false)
    × Runs (Stored ram ram-IsStore) (find_free ram cells bitmap_loc 2) bits (ok c) bits
find_free_lem_example =
    find_free_lem ram ram-IsStore cells bitmap_loc 4 bits bits-HasBitmap 2 3 (omega arith)
      (omega arith) (omega arith) (omega arith) refl

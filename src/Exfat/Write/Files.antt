-- ===== src/Exfat/Write/Files.antt =====
-- core/norse-exfat/src/write.rs: the public operations on the file or directory at a path.
use vault_pony_core.Prelude.{
  ℕ, ◌-◌, ◌%◌, ◌^◌, min, max, true, false, not, none, some, List, [], ◌∷◌, ◌++◌, ltb, leb, ◌==◌,
  if◌then◌else◌, length, drop, replicate,
}
use vault_pony_core.Prelude.Words.{add64, div_ceil}
use vault_pony_core.Prelude.Results.{lift, guard_M, pure, fail, ◌>>=◌, ◌>>◌}
use vault_pony_core.Exfat.Error.{invalid, not_found, panic, Disk, X, try_io}
use vault_pony_core.Exfat.Sector.{cluster_bytes}
use vault_pony_core.Exfat.Fat.{end_of_chain, read_chain}
use vault_pony_core.Exfat.Alloc.{BitmapLoc, set_fat, alloc_chain, extend_chain, free_chain}
use vault_pony_core.Exfat.Dir.{read_directory}
use vault_pony_core.Exfat.Fs.{ExfatFs, unbounded}
use vault_pony_core.Exfat.Paths.{is_nil}
use vault_pony_core.Exfat.Ranges.{ok_or, nth, write_range, zero_range}
use vault_pony_core.Exfat.Slots.{EntryLoc}
use vault_pony_core.Exfat.Write.{
  bitmap_of, create_entry, resolve_parent, locate_in, place_entry_set, clear_slots, rewrite_stream,
  first_of, last_of,
}

module _ (d : Disk) (fs : ExfatFs) where
  unfoldable pub create_file : List ℕ → X d.State (Unit {0})
  create_file path = do at ← resolve_parent d fs path; create_entry d fs at.0 at.1 false

  unfoldable pub make_dir : List ℕ → X d.State (Unit {0})
  make_dir path = do at ← resolve_parent d fs path; create_entry d fs at.0 at.1 true

  -- The entry set that a path leads to.
  unfoldable entry_at : List ℕ → X d.State EntryLoc
  entry_at path = do
    at ← resolve_parent d fs path
    found ← locate_in d fs (at.0).first_cluster at.1
    lift (ok_or found not_found)

  unfoldable pub rename : (from to : List ℕ) → X d.State (Unit {0})
  unfolding entry_at
  rename from to = do
    src ← entry_at from
    at ← resolve_parent d fs to
    taken ← locate_in d fs (at.0).first_cluster at.1
    elim taken [
      | some loc ↦ fail (invalid "destination exists")
      | none ↦ do
        place_entry_set d fs at.0 at.1 src.is_dir src.first_cluster src.data_len src.flags
        clear_slots d src.offsets
        try_io d.flush
    ]

  -- The clusters that are added after a chain; an empty chain gets its first.
  unfoldable added_to : BitmapLoc → List ℕ → ℕ → X d.State (List ℕ)
  added_to bm [] need = alloc_chain d fs.geo bm need
  added_to bm (c ∷ cs) need = do tail ← lift (last_of (c ∷ cs)); extend_chain d fs.geo bm tail need

  -- The first cluster and the chain of a file that has as many clusters as it needs.
  unfoldable grown_chain : EntryLoc → BitmapLoc → (new_clusters : ℕ) → X d.State (ℕ × List ℕ)
  unfolding added_to
  grown_chain entry bm new_clusters = do
    let old_clusters = div_ceil entry.data_len (cluster_bytes fs.geo)
    chain ←
        if entry.data_len == 0
        then pure []
        else read_chain d fs.geo entry.first_cluster (some old_clusters)
    if leb new_clusters old_clusters then pure (entry.first_cluster, chain) else do
      added ← added_to bm chain ((new_clusters - old_clusters) % 2 ^ 32)
      first ← if is_nil chain then lift (first_of added) else pure entry.first_cluster
      pure (first, chain ++ added)

  unfoldable pub write_file : List ℕ → (offset : ℕ) → (buf : List ℕ) → X d.State ℕ
  unfolding entry_at grown_chain
  write_file path offset [] = pure 0
  write_file path offset (b ∷ bs) = do
    entry ← entry_at path
    guard_M (not entry.is_dir) (invalid "write to a directory")
    let new_size = max (add64 offset (length (b ∷ bs))) entry.data_len
    bm ← lift (bitmap_of d fs)
    grown ← grown_chain entry bm (div_ceil new_size (cluster_bytes fs.geo))
    if ltb entry.data_len offset
        then zero_range d fs.geo grown.1 entry.data_len (offset - entry.data_len)
        else pure tt
    write_range d fs.geo grown.1 offset (b ∷ bs)
    try_io d.flush
    rewrite_stream d entry grown.0 new_size new_size 0x01
    try_io d.flush
    pure (length (b ∷ bs))

  -- The suffix of a chain, freed cluster by cluster.
  pub free_each : BitmapLoc → List ℕ → X d.State (Unit {0})
  free_each bm [] = pure tt
  free_each bm (c ∷ cs) = do free_chain d fs.geo bm c (some 1); free_each bm cs

  -- A file that shrinks to `keep` of its `old` clusters.
  unfoldable shrink : EntryLoc → BitmapLoc → (keep old len : ℕ) → X d.State (Unit {0})
  unfolding free_each
  shrink entry bm keep old len = do
    chain ← read_chain d fs.geo entry.first_cluster (some old)
    if keep == 0
        then (free_chain d fs.geo bm entry.first_cluster (some old)
            >> rewrite_stream d entry 0 0 0 0x00)
        else do
          tail ← lift (ok_or (nth chain (keep - 1)) panic)
          set_fat d fs.geo tail end_of_chain
          free_each bm (drop keep chain)
          rewrite_stream d entry entry.first_cluster len len 0x01
    try_io d.flush

  unfoldable pub truncate_file : List ℕ → (len : ℕ) → X d.State (Unit {0})
  unfolding write_file shrink
  truncate_file path len = do
    entry ← entry_at path
    guard_M (not entry.is_dir) (invalid "truncate a directory")
    let cb = cluster_bytes fs.geo
    let pad = min (len - entry.data_len) cb
    if ltb entry.data_len len
        then (write_file path (len - pad) (replicate pad 0) >>= λ n. pure tt)
        else do
          bm ← lift (bitmap_of d fs)
          if div_ceil entry.data_len cb == 0
              then pure tt
              else shrink entry bm (div_ceil len cb) (div_ceil entry.data_len cb) len

  -- A directory that is not empty is refused.
  unfoldable check_empty : EntryLoc → X d.State (Unit {0})
  check_empty entry = if not entry.is_dir then pure tt else do
    kids ← read_directory d fs.geo entry.first_cluster false unbounded
    guard_M (is_nil kids) (invalid "directory not empty")

  unfoldable pub remove : List ℕ → X d.State (Unit {0})
  unfolding check_empty entry_at
  remove path = do
    entry ← entry_at path
    check_empty entry
    clear_slots d entry.offsets
    try_io d.flush
    if ltb entry.first_cluster 2 then pure tt else do
      bm ← lift (bitmap_of d fs)
      free_chain d fs.geo bm entry.first_cluster none
      try_io d.flush

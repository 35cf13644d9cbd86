-- ===== src/Exfat/Write.antt =====
-- core/norse-exfat/src/write.rs: the directories that are written into, and entry sets placed,
-- rewritten and cleared.
pub mod Files
use vault_pony_core.Prelude.{
  ℕ, zero, suc, ◌+◌, ◌-◌, ◌%◌, ◌^◌, Bool, true, false, not, ◌||◌, Option, none, some, List, [], ◌∷◌,
  ◌++◌, ltb, ◌==◌, if◌then◌else◌, length, get_or, take, drop, replicate,
}
use vault_pony_core.Prelude.Bytes.{le16_bytes, le32_bytes, le64_bytes}
use vault_pony_core.Prelude.Words.{add64}
use vault_pony_core.Prelude.Slices.{splice}
use vault_pony_core.Prelude.Results.{Result, ok, err, lift, guard_M, pure, fail, ◌>>=◌, ◌>>◌}
use vault_pony_core.Exfat.Error.{
  ExfatResult, ExfatError, invalid, not_found, panic, Disk, X, try_io,
}
use vault_pony_core.Exfat.Sector.{cluster_bytes, cluster_offset}
use vault_pony_core.Exfat.Alloc.{BitmapLoc, alloc_chain, extend_chain}
use vault_pony_core.Exfat.Dir.{set_checksum}
use vault_pony_core.Exfat.Fs.{ExfatFs}
use vault_pony_core.Exfat.Paths.{components, trim_end, rsplit_once, is_nil}
use vault_pony_core.Exfat.Ranges.{ok_or}
use vault_pony_core.Exfat.Sets.{secondaries, entry_set}
use vault_pony_core.Exfat.Slots.{EntryLoc, read_slot, dir_slots, locate, slots_from, find_slot_run}

pub record DirHandle : Type 0 where
  pub first_cluster : ℕ
  pub entry : Option EntryLoc

-- The parent and the name of a path without the slashes at its end.
abbrev split_leaf : List ℕ → List ℕ × List ℕ
split_leaf path = elim (rsplit_once (trim_end path)) [
  | some (parent, leaf) ↦ (parent, leaf)
  | none ↦ ([], trim_end path)
]

-- `chain[0]`, `chain.last().unwrap()`: nothing is a panic.
abbrev pub first_of : List ℕ → ExfatResult ℕ
first_of [] = err panic
first_of (c ∷ cs) = ok c

pub last_of : List ℕ → ExfatResult ℕ
last_of [] = err panic
last_of (c ∷ []) = ok c
last_of (c ∷ c' ∷ cs) = last_of (c' ∷ cs)

-- The stream entry with new flags, lengths and first cluster.
unfoldable pub patch_stream : List ℕ → (first_cluster data_len valid_len flags : ℕ) → List ℕ
patch_stream stream first_cluster data_len valid_len flags = splice 24 (le64_bytes data_len) (
    splice 20 (le32_bytes first_cluster)
      (splice 8 (le64_bytes valid_len) (splice 1 (flags ∷ []) stream)))

module _ (d : Disk) where
  -- The entries at these offsets.
  pub read_slots : List ℕ → X d.State (List (List ℕ))
  read_slots [] = pure []
  read_slots (off ∷ offs) = do raw ← read_slot d off; rest ← read_slots offs; pure (raw ∷ rest)

  -- The set at the offsets, its stream entry patched and its checksum computed again.
  abbrev rewrite_at : List ℕ → (first_cluster data_len valid_len flags : ℕ) → X d.State (Unit {0})
  rewrite_at [] first_cluster data_len valid_len flags = fail panic
  rewrite_at (o ∷ []) first_cluster data_len valid_len flags = fail panic
  rewrite_at (o ∷ o' ∷ names) first_cluster data_len valid_len flags = do
    file ← read_slot d o
    old ← read_slot d o'
    let stream = patch_stream old first_cluster data_len valid_len flags
    rest ← read_slots names
    let cs = set_checksum (file ∷ stream ∷ rest)
    try_io (d.write_at o (splice 2 (le16_bytes cs) file))
    try_io (d.write_at o' stream)

  unfoldable pub rewrite_stream :
      EntryLoc → (first_cluster data_len valid_len flags : ℕ) → X d.State (Unit {0})
  unfolding read_slots patch_stream
  rewrite_stream entry = rewrite_at entry.offsets

  -- The in-use bit of the entries is cleared.
  pub clear_slots : List ℕ → X d.State (Unit {0})
  clear_slots [] = pure tt
  clear_slots (off ∷ offs) = do
    raw ← read_slot d off
    try_io (d.write_at off (splice 0 (get_or raw 0 0 % 2 ^ 7 ∷ []) raw))
    clear_slots offs

  -- `entries.iter().zip(&offs)`
  pub write_slots : List (List ℕ) → List ℕ → X d.State (Unit {0})
  write_slots [] offs = pure tt
  write_slots (e ∷ es) [] = pure tt
  write_slots (e ∷ es) (off ∷ offs) = do try_io (d.write_at off e); write_slots es offs

  module _ (fs : ExfatFs) where
    unfoldable pub bitmap_of : ExfatResult BitmapLoc
    bitmap_of = ok_or fs.bitmap (invalid "no allocation bitmap")

    unfoldable pub locate_in : ℕ → List ℕ → X d.State (Option EntryLoc)
    locate_in = locate d fs.geo fs.upcase

    pub resolve_from : DirHandle → List (List ℕ) → X d.State DirHandle
    resolve_from handle [] = pure handle
    resolve_from handle (comp ∷ comps) = do
      found ← locate_in handle.first_cluster comp
      loc ← lift (ok_or found not_found)
      guard_M loc.is_dir (invalid "path component is not a directory")
      resolve_from (record { first_cluster = loc.first_cluster; entry = some loc }) comps

    unfoldable pub resolve_dir : List ℕ → X d.State DirHandle
    unfolding resolve_from
    resolve_dir path =
        resolve_from (record { first_cluster = fs.geo.root_first_cluster; entry = none })
          (components path)

    unfoldable pub resolve_parent : List ℕ → X d.State (DirHandle × List ℕ)
    resolve_parent path = do
      guard_M (not (is_nil ((split_leaf path).1))) (invalid "empty file name")
      handle ← resolve_dir ((split_leaf path).0)
      pure (handle, (split_leaf path).1)

    unfoldable pub zero_cluster : ℕ → X d.State (Unit {0})
    zero_cluster cluster = do
      off ← lift (cluster_offset fs.geo cluster)
      try_io (d.write_at off (replicate (cluster_bytes fs.geo) 0))

    -- A subdirectory that grew: its own entry gets the new length.
    abbrev grow_entry : Option EntryLoc → X d.State (Unit {0})
    grow_entry none = pure tt
    grow_entry (some entry) = do
      let new_len = add64 entry.data_len (cluster_bytes fs.geo)
      rewrite_stream entry entry.first_cluster new_len new_len entry.flags
      try_io d.flush

    -- A directory with no room grows by one cluster.
    unfoldable grow_dir : DirHandle → List ℕ → ℕ → X d.State (List ℕ)
    grow_dir dir chain k = do
      bm ← lift bitmap_of
      tail ← lift (last_of chain)
      added ← extend_chain d fs.geo bm tail 1
      new_cluster ← lift (first_of added)
      zero_cluster new_cluster
      try_io d.flush
      grow_entry dir.entry
      base ← lift (cluster_offset fs.geo new_cluster)
      pure (slots_from base k)

    unfoldable pub find_or_make_slot_run : DirHandle → ℕ → X d.State (List ℕ)
    unfolding last_of grow_dir
    find_or_make_slot_run dir k = do
      slots ← dir_slots d fs.geo dir.first_cluster
      found ← find_slot_run d fs.geo slots k
      elim found [ some offs ↦ pure offs | none ↦ grow_dir dir slots.chain k ]

    unfoldable pub place_entry_set :
        DirHandle
        → (leaf : List ℕ) → (is_dir : Bool) → (first_cluster data_len flags : ℕ)
        → X d.State (Unit {0})
    unfolding write_slots
    place_entry_set parent leaf is_dir first_cluster data_len flags = do
      guard_M (not (is_nil leaf || ltb 255 (length leaf))) (invalid "bad name length")
      offs ← find_or_make_slot_run parent (1 + secondaries leaf)
      write_slots (entry_set fs.upcase leaf is_dir first_cluster data_len flags) offs
      try_io d.flush

    -- The first cluster of a new directory, zeroed; a new file has none.
    unfoldable initial_cluster : Bool → X d.State (ℕ × ℕ × ℕ)
    initial_cluster false = pure (0, 0, 0)
    initial_cluster true = do
      bm ← lift bitmap_of
      chain ← alloc_chain d fs.geo bm 1
      c ← lift (first_of chain)
      zero_cluster c
      try_io d.flush
      pure (c, cluster_bytes fs.geo, 0x01)

    abbrev is_some : {A : Type 0} → Option A → Bool
    is_some none = false
    is_some (some a) = true

    unfoldable pub create_entry :
        DirHandle → (leaf : List ℕ) → (is_dir : Bool) → X d.State (Unit {0})
    unfolding initial_cluster
    create_entry parent leaf is_dir = do
      found ← locate_in parent.first_cluster leaf
      guard_M (not (is_some found)) (invalid "already exists")
      start ← initial_cluster is_dir
      let (first_cluster, data_len, flags) = start
      place_entry_set parent leaf is_dir first_cluster data_len flags

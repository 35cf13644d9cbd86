-- ===== src/Exfat/Fs.antt =====
-- core/norse-exfat/src/lib.rs: opening a volume, its system entries, and the lookup of a path.
use vault_pony_core.Prelude.{
  ℕ, ◌%◌, ◌-◌, Bool, true, false, ◌&&◌, Option, none, some, List, [], ◌∷◌, map, ◌==◌, if◌then◌else◌,
  get_or,
}
use vault_pony_core.Prelude.Bytes.{bytes_eq, le32_at, le64_at}
use vault_pony_core.Prelude.Words.{u64_mod}
use vault_pony_core.Prelude.Results.{pure, fail, ◌>>=◌}
use vault_pony_core.Exfat.Error.{not_found, Disk, X}
use vault_pony_core.Exfat.Sector.{Geometry}
use vault_pony_core.Exfat.Boot.{read_boot_region}
use vault_pony_core.Exfat.Alloc.{BitmapLoc}
use vault_pony_core.Exfat.Upcase.{UpcaseTable, identity, map_unit, load}
use vault_pony_core.Exfat.Dir.{Entry, entry_bitmap, entry_upcase, walk_raw_entries, read_directory}
use vault_pony_core.Exfat.Paths.{components}

-- The disk is the state that the calls run over.
pub record ExfatFs : Type 0 where
  pub geo : Geometry
  pub upcase : UpcaseTable
  pub bitmap : Option BitmapLoc

-- `u64::MAX`, the length of the root directory.
abbrev pub unbounded : ℕ
unbounded = u64_mod - 1

-- The callbacks of the two searches: the first entry that fits ends the walk.
abbrev pub see_bitmap : List ℕ → Option BitmapLoc → Bool × Option BitmapLoc
see_bitmap raw found =
    if get_or raw 0 0 == entry_bitmap && get_or raw 1 0 % 2 == 0
    then (false, some (record { first_cluster = le32_at raw 20; length_bytes = le64_at raw 24 }))
    else (true, found)

abbrev pub see_upcase : List ℕ → Option (ℕ × ℕ) → Bool × Option (ℕ × ℕ)
see_upcase raw found =
    if get_or raw 0 0 == entry_upcase
    then (false, some (le32_at raw 20, le64_at raw 24))
    else (true, found)

-- The text in the case of the volume's table.
abbrev pub fold_case : UpcaseTable → List ℕ → List ℕ
fold_case table = map (map_unit table)

-- `entries.into_iter().find(...)`
pub find_entry : UpcaseTable → List ℕ → List Entry → Option Entry
find_entry table want [] = none
find_entry table want (e ∷ es) =
    let rest = find_entry table want es in
    if bytes_eq (fold_case table e.name) want then some e else rest

module _ (d : Disk) where
  unfoldable pub find_bitmap_entry : Geometry → X d.State (Option BitmapLoc)
  find_bitmap_entry g = walk_raw_entries d g g.root_first_cluster false unbounded see_bitmap none

  unfoldable pub find_upcase_entry : Geometry → X d.State (Option (ℕ × ℕ))
  find_upcase_entry g = walk_raw_entries d g g.root_first_cluster false unbounded see_upcase none

  abbrev pub load_upcase : Geometry → Option (ℕ × ℕ) → X d.State UpcaseTable
  load_upcase g none = pure identity
  load_upcase g (some (first_cluster, data_len)) = load d g first_cluster data_len

  unfoldable pub open_volume : X d.State ExfatFs
  unfolding find_bitmap_entry find_upcase_entry
  open_volume = do
    geo ← read_boot_region d
    found ← find_upcase_entry geo
    upcase_table ← load_upcase geo found
    bitmap_loc ← find_bitmap_entry geo
    pure (record { geo = geo; upcase = upcase_table; bitmap = bitmap_loc })

  module _ (fs : ExfatFs) where
    unfoldable pub list_dir : ℕ → Bool → ℕ → X d.State (List Entry)
    list_dir = read_directory d fs.geo

    abbrev pub root_dir : ℕ × Bool × ℕ
    root_dir = (fs.geo.root_first_cluster, false, unbounded)

    -- The facts of the directory that the walk stands in; a file has none.
    abbrev dir_facts : Option Entry → Option (ℕ × Bool × ℕ)
    dir_facts none = some root_dir
    dir_facts (some e) = if e.is_dir then some (e.first_cluster, e.no_fat_chain, e.size) else none

    -- The loop over the components, with the entry that the path has led to.
    pub lookup_from : Option Entry → List (List ℕ) → X d.State (Option Entry)
    unfolding find_entry
    lookup_from cur [] = pure cur
    lookup_from cur (comp ∷ comps) = elim (dir_facts cur) [
      | none ↦ fail not_found
      | some (first, contiguous, len) ↦ do
        entries ← list_dir first contiguous len
        elim (find_entry fs.upcase (fold_case fs.upcase comp) entries) [
          | none ↦ fail not_found
          | some e ↦ lookup_from (some e) comps
        ]
    ]

    unfoldable pub lookup : List ℕ → X d.State (Option Entry)
    unfolding lookup_from
    lookup path = lookup_from none (components path)

-- ===== src/Exfat/Slots.antt =====
-- core/norse-exfat/src/write.rs: the slots of a directory, and the entry set that a name leads to.
use vault_pony_core.Prelude.{
  ℕ, zero, suc, ◌+◌, ◌/◌, ◌%◌, ◌^◌, Bool, not, ◌||◌, Option, none, some, List, [], ◌∷◌, ◌++◌, leb,
  ◌==◌, if◌then◌else◌, length, get_or, take,
}
use vault_pony_core.Prelude.Slices.{slice}
use vault_pony_core.Prelude.Bytes.{bytes_eq, le16_at, le32_at, le64_at}
use vault_pony_core.Prelude.Words.{add64}
use vault_pony_core.Prelude.Results.{ok, err, lift, pure, fail, ◌>>=◌}
use vault_pony_core.Exfat.Error.{ExfatResult, panic, Disk, X, try_io}
use vault_pony_core.Exfat.Sector.{Geometry, cluster_bytes, cluster_offset}
use vault_pony_core.Exfat.Fat.{read_chain}
use vault_pony_core.Exfat.Upcase.{UpcaseTable, words_of}
use vault_pony_core.Exfat.Dir.{entry_end, entry_file, entry_name, chunks}
use vault_pony_core.Exfat.Fs.{fold_case}
use vault_pony_core.Exfat.Sets.{dir_attr}
use Prim.Native.Nat.{bit_and}

pub record DirSlots : Type 0 where
  pub chain : List ℕ
  pub offsets : List ℕ

pub record EntryLoc : Type 0 where
  pub offsets : List ℕ
  pub first_cluster : ℕ
  pub data_len : ℕ
  pub is_dir : Bool
  pub flags : ℕ

-- So many slots of 32 bytes from an offset on.
pub slots_from : (base n : ℕ) → List ℕ
slots_from base zero = []
slots_from base (suc n) = base ∷ slots_from (add64 base 32) n

pub slot_offsets : Geometry → List ℕ → ExfatResult (List ℕ)
unfolding slots_from
slot_offsets g [] = ok []
slot_offsets g (c ∷ cs) =
    let rest = slot_offsets g cs in
    elim (cluster_offset g c) [
      | err e ↦ err e
      | ok base ↦ elim rest [
        | ok offs ↦ ok (slots_from base (cluster_bytes g / 32) ++ offs)
        | err e ↦ err e
      ]
    ]

module _ (d : Disk) where
  abbrev pub read_slot : ℕ → X d.State (List ℕ)
  read_slot off = try_io (d.read_at off 32)

  unfoldable pub dir_slots : Geometry → ℕ → X d.State DirSlots
  unfolding slot_offsets
  dir_slots g first = do
    chain ← read_chain d g first none
    offs ← lift (slot_offsets g chain)
    pure (record { chain = chain; offsets = offs })

  -- The units of the name entries at these offsets, up to an entry of another type.
  pub read_units : List ℕ → X d.State (List ℕ)
  read_units [] = pure []
  read_units (off ∷ offs) = do
    ne ← read_slot off
    if not (get_or ne 0 0 == entry_name)
        then pure []
        else do rest ← read_units offs; pure (words_of (slice 2 30 ne) ++ rest)

  -- The set at these offsets, if its name is the one that is looked for. A set of one entry has no
  -- second offset.
  pub match_set : UpcaseTable → List ℕ → List ℕ → List ℕ → X d.State (Option EntryLoc)
  unfolding read_units
  match_set table want raw [] = fail panic
  match_set table want raw (o ∷ []) = fail panic
  match_set table want raw (o ∷ o' ∷ names) = do
    stream ← read_slot o'
    units ← read_units names
    if bytes_eq (fold_case table (take (get_or stream 3 0) units)) want
        then pure (
            some (record {
              offsets = o ∷ o' ∷ names;
              first_cluster = le32_at stream 20;
              data_len = le64_at stream 24;
              is_dir = not (bit_and (le16_at raw 4) dir_attr == 0);
              flags = get_or stream 1 0;
            }))
        else pure none

  -- The loop over the slots. `skip` counts those of a set that has been passed.
  pub locate_from : UpcaseTable → List ℕ → ℕ → List ℕ → X d.State (Option EntryLoc)
  unfolding match_set
  locate_from table want skip [] = pure none
  locate_from table want (suc skip) (off ∷ offs) = locate_from table want skip offs
  locate_from table want zero (off ∷ offs) = do
    raw ← read_slot off
    if get_or raw 0 0 == entry_end
        then pure none
        else if not (get_or raw 0 0 == entry_file)
        then locate_from table want zero offs
        else if leb (length (off ∷ offs)) (get_or raw 1 0)
        then pure none
        else do
          found ← match_set table want raw (take (1 + get_or raw 1 0) (off ∷ offs))
          elim found [
            | some loc ↦ pure (some loc)
            | none ↦ locate_from table want (get_or raw 1 0) offs
          ]

  unfoldable pub locate :
      Geometry → UpcaseTable → (dir_first : ℕ) → List ℕ → X d.State (Option EntryLoc)
  unfolding dir_slots locate_from
  locate g table dir_first name = do
    slots ← dir_slots g dir_first
    locate_from table (fold_case table name) 0 slots.offsets

  abbrev usable : List ℕ → Bool
  usable raw = get_or raw 0 0 == entry_end || get_or raw 0 0 / 2 ^ 7 % 2 == 0

  -- The scan of one cluster for `k` usable slots, with the run that has been met.
  pub scan_run : ℕ → List ℕ → List ℕ → X d.State (Option (List ℕ))
  scan_run k run [] = pure none
  scan_run k run (off ∷ offs) = do
    raw ← read_slot off
    if not (usable raw)
        then scan_run k [] offs
        else if leb k (length (run ++ off ∷ []))
        then pure (some (take k (run ++ off ∷ [])))
        else scan_run k (run ++ off ∷ []) offs

  -- The scan of the clusters of a directory.
  pub scan_clusters : ℕ → List (List ℕ) → X d.State (Option (List ℕ))
  unfolding scan_run
  scan_clusters k [] = pure none
  scan_clusters k (slots ∷ rest) = do
    found ← scan_run k [] slots
    elim found [ some offs ↦ pure (some offs) | none ↦ scan_clusters k rest ]

  -- The search of `find_or_make_slot_run` before it grows the directory.
  unfoldable pub find_slot_run : Geometry → DirSlots → ℕ → X d.State (Option (List ℕ))
  unfolding scan_clusters
  find_slot_run g slots k =
      scan_clusters k (chunks (cluster_bytes g / 32) (length slots.chain) slots.offsets)

-- ===== src/Exfat/Dir.antt =====
-- core/norse-exfat/src/dir.rs: directories and their entry sets. A text is the list of its UTF-16
-- units, which determine it.
pub mod Laws
use vault_pony_core.Prelude.{
  ℕ, zero, suc, ◌+◌, ◌-◌, ◌*◌, ◌/◌, ◌%◌, ◌^◌, max, min, Bool, true, false, not, ◌&&◌, ◌||◌, Option,
  none, some, List, [], ◌∷◌, ◌++◌, ltb, leb, ◌==◌, if◌then◌else◌, length, get_or, take, drop,
}
use vault_pony_core.Prelude.Slices.{slice}
use vault_pony_core.Prelude.Bytes.{le16_at, le32_at, le64_at}
use vault_pony_core.Prelude.Words.{checked_add, div_ceil, rotate_right, u64_mod}
use vault_pony_core.Prelude.Results.{Result, ok, err, lift, pure, fail, ◌>>=◌}
use vault_pony_core.Exfat.Error.{ExfatResult, invalid, Disk, X, try_io}
use vault_pony_core.Exfat.Sector.{Geometry, cluster_bytes, cluster_offset}
use vault_pony_core.Exfat.Fat.{read_chain}
use vault_pony_core.Exfat.Upcase.{words_of}
use Prim.Native.Nat.{bit_and}

abbrev pub entry_end : ℕ
entry_end = 0x00

abbrev pub entry_bitmap : ℕ
entry_bitmap = 0x81

abbrev pub entry_upcase : ℕ
entry_upcase = 0x82

abbrev pub entry_file : ℕ
entry_file = 0x85

abbrev pub entry_stream : ℕ
entry_stream = 0xC0

abbrev pub entry_name : ℕ
entry_name = 0xC1

abbrev pub attr_directory : ℕ
attr_directory = 0x0010

pub record Entry : Type 0 where
  pub name : List ℕ
  pub is_dir : Bool
  pub size : ℕ
  pub valid_size : ℕ
  pub first_cluster : ℕ
  pub no_fat_chain : Bool
  pub mtime_ms : Option ℕ

-- `chunks_exact(size)`, by the number of chunks.
unfoldable pub chunks : ℕ → ℕ → List ℕ → List (List ℕ)
chunks size zero bs = []
chunks size (suc n) bs = take size bs ∷ chunks size n (drop size bs)

abbrev pub chunks_exact : ℕ → List ℕ → List (List ℕ)
chunks_exact size bs = chunks size (length bs / size) bs

-- A walk that is over, or goes on: what the callback has gathered, and the bytes seen.
pub data Walk (A : Type 0) : Type 0 where
  done : A → Walk A
  going : A → ℕ → Walk A

-- The callback takes an entry and what it has gathered; `false` ends the walk.
module _ {A : Type 0} (f : List ℕ → A → Bool × A) (data_len : ℕ) where
  -- The entries of one cluster.
  unfoldable pub walk_cluster : List (List ℕ) → ℕ → A → Walk A
  walk_cluster [] seen a = going a seen
  walk_cluster (raw ∷ raws) seen a =
      let (on, b) = f raw a in
      let rest = walk_cluster raws (seen + 32) b in
      if leb data_len seen
      then done a
      else if get_or raw 0 0 == entry_end
      then done a
      else if on
      then rest
      else done b

  module _ (d : Disk) (g : Geometry) where
    -- The clusters of a chain.
    unfoldable pub walk_clusters : List ℕ → ℕ → A → X d.State A
    unfolding walk_cluster
    walk_clusters [] seen a = pure a
    walk_clusters (c ∷ cs) seen a = if leb data_len seen then pure a else do
      off ← lift (cluster_offset g c)
      buf ← try_io (d.read_at off (cluster_bytes g))
      elim (walk_cluster (chunks_exact 32 buf) seen a) [
        | done b ↦ pure b
        | going b seen' ↦ walk_clusters cs seen' b
      ]

-- The run from a cluster on, up to the largest 32-bit number.
pub contiguous : ℕ → ℕ → List ℕ
contiguous first zero = []
contiguous first (suc n) =
    let rest = contiguous (first + 1) n in if ltb first (2 ^ 32) then first ∷ rest else []

module _ (d : Disk) (g : Geometry) where
  unfoldable pub clusters_of : ℕ → Bool → ℕ → X d.State (List ℕ)
  unfolding contiguous
  clusters_of first true data_len =
      pure (contiguous first (min (max (div_ceil data_len (cluster_bytes g)) 1) g.cluster_count))
  clusters_of first false data_len = read_chain d g first none

  unfoldable pub walk_raw_entries :
      {A : Type 0} → ℕ → Bool → ℕ → (List ℕ → A → Bool × A) → A → X d.State A
  unfolding clusters_of walk_clusters
  walk_raw_entries first_cluster no_fat_chain data_len f a =
      if first_cluster == 0 then pure a else do
        clusters ← clusters_of first_cluster no_fat_chain data_len
        walk_clusters f data_len d g clusters 0 a

-- The bytes of an entry from index `i` on; in the first entry bytes 2 and 3 are left out.
unfoldable pub sum_entry : Bool → ℕ → ℕ → List ℕ → ℕ
sum_entry first i cs [] = cs
sum_entry first i cs (b ∷ bs) =
    sum_entry first (i + 1)
      (if first && (i == 2 || i == 3) then cs else (rotate_right 16 cs + b) % 2 ^ 16) bs

unfoldable pub sum_entries : Bool → ℕ → List (List ℕ) → ℕ
unfolding sum_entry
sum_entries first cs [] = cs
sum_entries first cs (e ∷ es) = sum_entries false (sum_entry first 0 cs e) es

unfoldable pub set_checksum : List (List ℕ) → ℕ
unfolding sum_entries
set_checksum = sum_entries true 0

-- The days from the epoch to a date, after Howard Hinnant. No number of it is negative from 1980 on.
unfoldable pub days_of : ℕ → ℕ → ℕ → ℕ
days_of year month day =
    let y = if leb month 2 then year - 1 else year in
    let era = y / 400 in
    let yoe = y - era * 400 in
    let doy = (153 * (if ltb 2 month then month - 3 else month + 9) + 2) / 5 + day - 1 in
    let doe = yoe * 365 + yoe / 4 - yoe / 100 + doy in era * 146_097 + doe - 719_468

-- 7 bits with a sign, in units of 15 minutes: the offset is subtracted.
unfoldable pub shift_zone : ℕ → ℕ → ℕ
shift_zone utc_offset ms =
    if utc_offset / 2 ^ 7 % 2 == 1
    then if leb 64 (utc_offset % 128)
      then ms + (128 - utc_offset % 128) * 15 * 60 * 1000
      else ms - utc_offset % 128 * 15 * 60 * 1000
    else ms

unfoldable pub timestamp_ms : ℕ → ℕ → ℕ → Option ℕ
unfolding days_of shift_zone
timestamp_ms ts centis utc_offset =
    let year = 1980 + ts / 2 ^ 25 in
    let month = ts / 2 ^ 21 % 16 in
    let day = ts / 2 ^ 16 % 32 in
    let hour = ts / 2 ^ 11 % 32 in
    let minute = ts / 2 ^ 5 % 64 in
    let sec = ts % 32 * 2 in
    if not (leb 1 month && leb month 12) || not (leb 1 day && leb day 31)
    then none
    else some (
        shift_zone utc_offset (
          (days_of year month day * 86_400 + hour * 3_600 + minute * 60 + sec) * 1_000
          + centis * 10))

-- The units of the name entries, up to the first entry of another type.
unfoldable pub name_units : List (List ℕ) → List ℕ
unfolding words_of
name_units [] = []
name_units (e ∷ es) =
    let rest = name_units es in
    if get_or e 0 0 == entry_name then words_of (drop 2 e) ++ rest else []

abbrev is_high : ℕ → Bool
is_high u = leb 0xD800 u && ltb u 0xDC00

abbrev is_low : ℕ → Bool
is_low u = leb 0xDC00 u && ltb u 0xE000

-- `String::from_utf16_lossy`: a surrogate without its partner becomes U+FFFD.
unfoldable pub from_utf16_lossy : List ℕ → List ℕ
from_utf16_lossy [] = []
from_utf16_lossy (u ∷ []) = (if is_high u || is_low u then 0xFFFD else u) ∷ []
from_utf16_lossy (u ∷ v ∷ us) =
    let pair = u ∷ v ∷ from_utf16_lossy us in
    let rest = from_utf16_lossy (v ∷ us) in
    if is_high u && is_low v
    then pair
    else if is_high u || is_low u
    then 0xFFFD ∷ rest
    else u ∷ rest

-- A file entry with its secondaries.
unfoldable pub parse_set : List (List ℕ) → ExfatResult Entry
unfolding name_units from_utf16_lossy
parse_set set =
    let file = get_or set 0 [] in
    let stream = get_or set 1 [] in
    let name_len = get_or stream 3 0 in
    let units = take name_len (name_units (drop 2 set)) in
    if not (set_checksum set == le16_at file 2)
    then err (invalid "entry set checksum mismatch")
    else if not (get_or stream 0 0 == entry_stream)
    then err (invalid "first secondary is not a stream entry")
    else if ltb (length units) name_len
    then err (invalid "file name entries shorter than NameLength")
    else ok (record {
      name = from_utf16_lossy units;
      is_dir = not (bit_and (le16_at file 4) attr_directory == 0);
      size = le64_at stream 24;
      valid_size = le64_at stream 8;
      first_cluster = le32_at stream 20;
      no_fat_chain = not (bit_and (get_or stream 1 0) 0x02 == 0);
      mtime_ms = timestamp_ms (le32_at file 12) (get_or file 22 0) (get_or file 24 0);
    })

-- The loop over the entries. `skip` counts those of a set that has been read.
pub parse_entries : ℕ → List (List ℕ) → ExfatResult (List Entry)
unfolding parse_set
parse_entries skip [] = ok []
parse_entries (suc skip) (raw ∷ raws) = parse_entries skip raws
parse_entries zero (raw ∷ raws) =
    let secondary_count = get_or raw 1 0 in
    let plain = parse_entries zero raws in
    if not (get_or raw 0 0 == entry_file)
    then plain
    else if ltb secondary_count 2 || ltb (length raws) secondary_count
    then err (invalid "file entry set truncated")
    else elim (parse_set (take (1 + secondary_count) (raw ∷ raws))) [
      | err e ↦ err e
      | ok entry ↦ elim (parse_entries secondary_count raws) [
        | ok entries ↦ ok (entry ∷ entries)
        | err e ↦ err e
      ]
    ]

module _ (d : Disk) (g : Geometry) where
  unfoldable pub read_directory : ℕ → Bool → ℕ → X d.State (List Entry)
  unfolding parse_entries
  read_directory first_cluster no_fat_chain data_len = do
    raws ←
        walk_raw_entries d g first_cluster no_fat_chain data_len
          (λ raw gathered. (true, gathered ++ raw ∷ [])) []
    lift (parse_entries 0 raws)

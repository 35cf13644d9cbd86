-- ===== src/Exfat/Sets.antt =====
-- core/norse-exfat/src/write.rs: the entry set that `place_entry_set` writes, and the name hash.
pub mod Names
pub mod RoundTrip
use vault_pony_core.Prelude.{
  ℕ, zero, suc, ◌+◌, ◌-◌, ◌*◌, ◌/◌, ◌%◌, ◌^◌, Bool, true, false, List, [], ◌∷◌, ◌++◌, map,
  if◌then◌else◌, length, replicate,
}
use vault_pony_core.Prelude.Bytes.{le16_bytes, le32_bytes, le64_bytes}
use vault_pony_core.Prelude.Words.{div_ceil, rotate_right}
use vault_pony_core.Exfat.Upcase.{UpcaseTable, map_unit}
use vault_pony_core.Exfat.Dir.{entry_file, entry_stream, entry_name, chunks, set_checksum}

abbrev pub dir_attr : ℕ
dir_attr = 0x10

abbrev pub archive_attr : ℕ
archive_attr = 0x20

-- 2024-01-01 00:00:00.
abbrev pub fixed_ts : ℕ
fixed_ts = (2024 - 1980) * 2 ^ 25 + 2 ^ 21 + 2 ^ 16

hash_bytes : ℕ → List ℕ → ℕ
hash_bytes hash [] = hash
hash_bytes hash (b ∷ bs) = hash_bytes ((rotate_right 16 hash + b) % 2 ^ 16) bs

hash_from : UpcaseTable → ℕ → List ℕ → ℕ
unfolding hash_bytes
hash_from table hash [] = hash
hash_from table hash (u ∷ us) = hash_from table (hash_bytes hash (le16_bytes (map_unit table u))) us

unfoldable pub name_hash : UpcaseTable → List ℕ → ℕ
unfolding hash_from
name_hash table = hash_from table 0

-- The file entry with the checksum `cs` in bytes 2 and 3.
unfoldable pub file_entry : (secondary cs : ℕ) → (is_dir : Bool) → List ℕ
file_entry secondary cs is_dir =
    entry_file
    ∷ secondary % 256
    ∷ cs % 256
    ∷ cs / 2 ^ 8 % 256
    ∷ (le16_bytes (if is_dir then dir_attr else archive_attr)
        ++ 0 ∷ 0 ∷ le32_bytes fixed_ts
        ++ le32_bytes fixed_ts
        ++ le32_bytes fixed_ts
        ++ replicate 12 0)

-- The stream entry of a file whose bytes are all valid.
unfoldable pub stream_entry : (flags name_len hash first_cluster data_len : ℕ) → List ℕ
stream_entry flags name_len hash first_cluster data_len =
    entry_stream
    ∷ flags
    ∷ 0
    ∷ name_len % 256
    ∷ (le16_bytes hash
        ++ 0 ∷ 0 ∷ le64_bytes data_len
        ++ replicate 4 0
        ++ le32_bytes first_cluster
        ++ le64_bytes data_len)

-- The units as bytes.
unfoldable pub unit_bytes : List ℕ → List ℕ
unit_bytes [] = []
unit_bytes (u ∷ us) = u % 256 ∷ u / 2 ^ 8 % 256 ∷ unit_bytes us

-- A name entry of at most 15 units.
unfoldable pub name_entry : List ℕ → List ℕ
unfolding unit_bytes
name_entry units = entry_name ∷ 0 ∷ (unit_bytes units ++ replicate (30 - 2 * length units) 0)

-- `name_u16.chunks(15)`: the last chunk may be shorter.
unfoldable pub name_entries : List ℕ → List (List ℕ)
unfolding name_entry
name_entries name = map name_entry (chunks 15 (div_ceil (length name) 15) name)

abbrev pub secondaries : List ℕ → ℕ
secondaries name = 1 + div_ceil (length name) 15

-- The entries after the file entry.
unfoldable pub set_tail :
    UpcaseTable → (name : List ℕ) → (first_cluster data_len flags : ℕ) → List (List ℕ)
unfolding name_entries stream_entry
set_tail table name first_cluster data_len flags =
    stream_entry flags (length name) (name_hash table name) first_cluster data_len
    ∷ name_entries name

-- The set, with the checksum of the set that has none.
unfoldable pub entry_set :
    UpcaseTable
    → (name : List ℕ) → (is_dir : Bool) → (first_cluster data_len flags : ℕ) → List (List ℕ)
unfolding file_entry set_tail
entry_set table name is_dir first_cluster data_len flags =
    let tail = set_tail table name first_cluster data_len flags in
    let cs = set_checksum (file_entry (secondaries name) 0 is_dir ∷ tail) in
    file_entry (secondaries name) cs is_dir ∷ tail

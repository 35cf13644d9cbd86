-- ===== src/Exfat/Sets/RoundTrip.antt =====
-- The entry set that core/norse-exfat/src/write.rs builds is the one that src/dir.rs reads.
use vault_pony_core.Prelude.{
  ℕ, ◌^◌, ◌<◌, ◌≤◌, ◌≡◌, refl, sym, ap, ◌∙◌, Bool, true, false, not, some, List, ◌∷◌, ◌==◌, length,
  get_or, take, All, arith,
}
use vault_pony_core.Prelude.Bytes.{le16_at, le32_at, le64_at, from_be32_bytes, from_be64_bytes}
use vault_pony_core.Prelude.Results.{ok}
use vault_pony_core.Exfat.Upcase.{UpcaseTable}
use vault_pony_core.Exfat.Dir.{
  Entry, sum_entry, sum_entries, set_checksum, from_utf16_lossy, timestamp_ms, days_of, shift_zone,
  parse_set, name_units,
}
use vault_pony_core.Exfat.Dir.Laws.{set_checksum-bound, parse_set-ok, entry_of_set}
use vault_pony_core.Exfat.Sets.{
  name_hash, file_entry, stream_entry, name_entries, set_tail, entry_set, secondaries,
}
use vault_pony_core.Exfat.Sets.Names.{take-name_units}
use Prim.Native.Nat.{bit_and}

-- The checksum leaves out the bytes that hold it.
set_checksum-file_entry :
    (s cs cs' : ℕ) (is_dir : Bool) (tail : List (List ℕ))
    → set_checksum (file_entry s cs is_dir ∷ tail) ≡ set_checksum (file_entry s cs' is_dir ∷ tail)
unfolding set_checksum sum_entries sum_entry file_entry
set_checksum-file_entry s cs cs' is_dir tail = refl

le16_at-file_entry :
    (s cs : ℕ) (is_dir : Bool) → cs < 65_536 → le16_at (file_entry s cs is_dir) 2 ≡ cs
unfolding file_entry
le16_at-file_entry s cs is_dir h = omega arith

-- The time stamp that every set is given, in milliseconds.
abbrev pub fixed_ms : ℕ
fixed_ms = 1_704_067_200_000

-- The entry that a set describes.
abbrev pub described :
    (name : List ℕ) → (is_dir : Bool) → (first_cluster data_len flags : ℕ) → Entry
described name is_dir first_cluster data_len flags = record {
  name = name;
  is_dir = is_dir;
  size = data_len;
  valid_size = data_len;
  first_cluster = first_cluster;
  no_fat_chain = not (bit_and flags 0x02 == 0);
  mtime_ms = some fixed_ms;
}

file_time :
    (s cs : ℕ) (is_dir : Bool)
    → timestamp_ms
        (le32_at (file_entry s cs is_dir) 12)
        (get_or (file_entry s cs is_dir) 22 0)
        (get_or (file_entry s cs is_dir) 24 0)
      ≡ some fixed_ms
unfolding file_entry timestamp_ms days_of shift_zone
file_time s cs is_dir = refl

file_kind :
    (s cs : ℕ) (is_dir : Bool)
    → not (bit_and (le16_at (file_entry s cs is_dir) 4) 0x0010 == 0) ≡ is_dir
unfolding file_entry
file_kind s cs true = refl
file_kind s cs false = refl

-- The fields of the stream entry are read back.
stream_fields :
    (flags name_len hash first_cluster data_len : ℕ)
    → first_cluster < 2 ^ 32
    → data_len < 2 ^ 64
    → let e = stream_entry flags name_len hash first_cluster data_len in
      (le64_at e 24 ≡ data_len)
      × (le64_at e 8 ≡ data_len)
      × (le32_at e 20 ≡ first_cluster)
      × (get_or e 1 0 ≡ flags)
unfolding stream_entry
stream_fields flags name_len hash first_cluster data_len h k =
    (from_be64_bytes data_len k, from_be64_bytes data_len k, from_be32_bytes first_cluster h, refl)

-- The entry that the bytes stand for is the one described.
entry_of_set-described :
    (s cs : ℕ) (name : List ℕ) (is_dir : Bool) (hash first_cluster data_len flags : ℕ)
    → from_utf16_lossy name ≡ name
    → first_cluster < 2 ^ 32
    → data_len < 2 ^ 64
    → entry_of_set
        (file_entry s cs is_dir)
        (stream_entry flags (length name) hash first_cluster data_len)
        name
      ≡ described name is_dir first_cluster data_len flags
entry_of_set-described s cs name is_dir hash first_cluster data_len flags text h k =
    let (size, valid, first, flag) =
      stream_fields flags (length name) hash first_cluster data_len h k in
    let kind = file_kind s cs is_dir in
    let time = file_time s cs is_dir in rw (text, kind, size, valid, first, flag, time)

-- A set that is built for a name of at most 255 units, with a first cluster and a length that fit their
-- fields, is read as the entry it was built for: the checksum is accepted, and the name, the kind, the
-- sizes, the first cluster and the flags come back. The name is a text: no surrogate in it is alone.
pub parse_set-entry_set :
    (table : UpcaseTable) (name : List ℕ) (is_dir : Bool) (first_cluster data_len flags : ℕ)
    → length name ≤ 255
    → All (λ u. u < 65_536) name
    → from_utf16_lossy name ≡ name
    → first_cluster < 2 ^ 32
    → data_len < 2 ^ 64
    → parse_set (entry_set table name is_dir first_cluster data_len flags)
      ≡ ok (described name is_dir first_cluster data_len flags)
unfolding entry_set set_tail
parse_set-entry_set table name is_dir first_cluster data_len flags len units text h k =
    let hash = name_hash table name in
    let stream = stream_entry flags (length name) hash first_cluster data_len in
    let cs = set_checksum (file_entry (secondaries name) 0 is_dir ∷ stream ∷ name_entries name) in
    let low : get_or stream 3 0 ≡ length name = omega arith in
    parse_set-ok (file_entry (secondaries name) cs is_dir) stream (name_entries name) name
      (set_checksum-file_entry (secondaries name) cs 0 is_dir (stream ∷ name_entries name)
        ∙ sym (le16_at-file_entry (secondaries name) cs is_dir (set_checksum-bound _)))
      refl (ap (λ n. take n (name_units (name_entries name))) low ∙ take-name_units name units)
      (sym low)
    ∙ ap ok (
        entry_of_set-described (secondaries name) cs name is_dir hash first_cluster data_len flags
          text h k)

-- ===== src/Exfat/Dir/Laws.antt =====
-- The checksum of an entry set and the test of a set that is read (core/norse-exfat/src/dir.rs).
use vault_pony_core.Prelude.{
  ℕ, ◌+◌, ◌%◌, ◌^◌, ◌<◌, ◌≡◌, Bool, true, false, not, List, [], ◌∷◌, ltb, ◌==◌, ◌&&◌, ◌||◌,
  if◌then◌else◌, length, get_or, take, arith,
}
use vault_pony_core.Prelude.Bytes.{le16_at, le32_at, le64_at}
use vault_pony_core.Prelude.Words.{rotate_right}
use vault_pony_core.Prelude.Results.{ok}
use vault_pony_core.Exfat.Dir.{
  Entry, sum_entry, sum_entries, set_checksum, entry_stream, attr_directory, name_units,
  from_utf16_lossy, timestamp_ms, parse_set,
}
use Prim.Native.Nat.{bit_and}

sum_entry-bound :
    (first : Bool) (i cs : ℕ) (bs : List ℕ) → cs < 65_536 → sum_entry first i cs bs < 65_536
unfolding sum_entry
sum_entry-bound first i cs [] h = h
sum_entry-bound first i cs (b ∷ bs) h =
    sum_entry-bound first (i + 1) _ bs (step (first && (i == 2 || i == 3)))
  where
    step : (t : Bool) → (if t then cs else (rotate_right 16 cs + b) % 2 ^ 16) < 65_536
    step true = h
    step false = omega arith

sum_entries-bound :
    (first : Bool) (cs : ℕ) (es : List (List ℕ)) → cs < 65_536 → sum_entries first cs es < 65_536
unfolding sum_entries
sum_entries-bound first cs [] h = h
sum_entries-bound first cs (e ∷ es) h =
    sum_entries-bound false _ es (sum_entry-bound first 0 cs e h)

-- The checksum is a 16-bit number.
pub set_checksum-bound : (es : List (List ℕ)) → set_checksum es < 65_536
unfolding set_checksum
set_checksum-bound es = sum_entries-bound true 0 es (omega arith)

-- The entry that a set stands for, once the units of its name are known.
abbrev pub entry_of_set : (file stream units : List ℕ) → Entry
entry_of_set file stream units = record {
  name = from_utf16_lossy units;
  is_dir = not (bit_and (le16_at file 4) attr_directory == 0);
  size = le64_at stream 24;
  valid_size = le64_at stream 8;
  first_cluster = le32_at stream 20;
  no_fat_chain = not (bit_and (get_or stream 1 0) 0x02 == 0);
  mtime_ms = timestamp_ms (le32_at file 12) (get_or file 22 0) (get_or file 24 0);
}

-- A set whose checksum, stream entry and name pass the tests is read.
pub parse_set-ok :
    (file stream : List ℕ) (names : List (List ℕ)) (units : List ℕ)
    → set_checksum (file ∷ stream ∷ names) ≡ le16_at file 2
    → get_or stream 0 0 ≡ entry_stream
    → take (get_or stream 3 0) (name_units names) ≡ units
    → length units ≡ get_or stream 3 0
    → parse_set (file ∷ stream ∷ names) ≡ ok (entry_of_set file stream units)
unfolding parse_set
parse_set-ok file stream names units sum kind name size =
    let same : (set_checksum (file ∷ stream ∷ names) == le16_at file 2) ≡ true = ground arith in
    let is_stream : (get_or stream 0 0 == entry_stream) ≡ true = ground arith in
    let enough : ltb (length units) (get_or stream 3 0) ≡ false = ground arith in
    rw (same, is_stream, name, enough)

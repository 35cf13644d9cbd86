-- ===== src/Format/Parse.antt =====
-- core/vc-format/src/parse.rs: validation of a decrypted header region of 448 bytes. CRC-32 is the
-- crate crc32fast, and is a parameter here.
pub mod Accept
use Prim.Native.Nat.{bit_and}
use vault_pony_core.Prelude.{ℕ, ◌+◌, ◌^◌, List, ltb, leb, not, ◌==◌, take}
use vault_pony_core.Prelude.Slices.{slice}
use vault_pony_core.Prelude.Bytes.{bytes_eq, contains, be16_at, be32_at, be64_at}
use vault_pony_core.Types.Consts.{
  header_magic, header_fields_crc_len, master_key_area_len, sector_sizes,
}
use vault_pony_core.Types.Offsets
use vault_pony_core.Types.Error.{
  VcResult, ok, err, guard, not_found_or_wrong_password, header_damaged, version_too_new,
  system_volume,
}
use vault_pony_core.Types.Pure.{◌>>=◌, ◌>>◌}
use vault_pony_core.Types.Header.{HeaderPosition, VolumeGeometry, VolumeHeader}

abbrev pub supported_min_program_version : ℕ
supported_min_program_version = 0x010b

abbrev pub min_header_version : ℕ
min_header_version = 5

abbrev pub flag_system_encryption : ℕ
flag_system_encryption = 1

-- The fields at their offsets.
unfoldable pub header_of : List ℕ → HeaderPosition → VolumeHeader
header_of d position = record {
  header_version = be16_at d Offsets.header_version;
  min_program_version = be16_at d Offsets.min_program_version;
  flags = be32_at d Offsets.flags;
  geometry = record {
    volume_size = be64_at d Offsets.volume_size;
    encrypted_area_start = be64_at d Offsets.encrypted_area_start;
    encrypted_area_size = be64_at d Offsets.encrypted_area_size;
    sector_size = be32_at d Offsets.sector_size;
    hidden_volume_size = be64_at d Offsets.hidden_volume_size;
  };
  position = position;
  master_keys = slice Offsets.master_keys master_key_area_len d;
}

module _ (crc32 : List ℕ → ℕ) where
  unfoldable pub parse_decrypted_header : List ℕ → HeaderPosition → VcResult VolumeHeader
  parse_decrypted_header d position = do
    guard (bytes_eq (slice Offsets.magic 4 d) header_magic) not_found_or_wrong_password
    guard (crc32 (take header_fields_crc_len d) == be32_at d Offsets.header_crc32) header_damaged
    guard
        (crc32 (slice Offsets.master_keys master_key_area_len d)
          == be32_at d Offsets.master_key_crc32)
        header_damaged
    let required = be16_at d Offsets.min_program_version
    guard (not (ltb (be16_at d Offsets.header_version) min_header_version))
        (version_too_new required supported_min_program_version)
    guard (not (ltb supported_min_program_version required))
        (version_too_new required supported_min_program_version)
    guard (bit_and (be32_at d Offsets.flags) flag_system_encryption == 0) system_volume
    guard (contains sector_sizes (be32_at d Offsets.sector_size)) header_damaged
    ok (header_of d position)

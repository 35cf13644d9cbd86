-- ===== src/Format/Create.antt =====
-- core/vc-format/src/create.rs: the plaintext header of a new volume, and the calls that write a
-- volume's headers to a device. CRC-32, the random source, PBKDF2 and the XTS mode are parameters.
pub mod RoundTrip
use vault_pony_core.Prelude.{
  ℕ, ◌+◌, ◌-◌, ◌*◌, ◌%◌, ◌^◌, Bool, not, ◌||◌, List, [], ◌∷◌, ◌++◌, take, replicate, ltb, ◌==◌,
}
use vault_pony_core.Prelude.Slices.{slice, splice}
use vault_pony_core.Prelude.Bytes.{be16_bytes, be32_bytes, be64_bytes, contains}
use vault_pony_core.Types.Consts.{
  header_enc_len, header_magic, header_fields_crc_len, master_key_area_len,
}
use vault_pony_core.Types.Offsets

-- The fields of `build_header` up to the master keys.
pub build_fields : ℕ → ℕ → ℕ → ℕ → List ℕ
build_fields data_area_start data_area_size hidden_volume_size sector_size =
    let h0 = replicate header_enc_len 0 in
    let h1 = splice Offsets.magic header_magic h0 in
    let h2 = splice Offsets.header_version (be16_bytes 5) h1 in
    let h3 = splice Offsets.min_program_version (be16_bytes 0x010b) h2 in
    let h4 = splice Offsets.hidden_volume_size (be64_bytes hidden_volume_size) h3 in
    let h5 = splice Offsets.volume_size (be64_bytes data_area_size) h4 in
    let h6 = splice Offsets.encrypted_area_start (be64_bytes data_area_start) h5 in
    let h7 = splice Offsets.encrypted_area_size (be64_bytes data_area_size) h6 in
    let h8 = splice Offsets.flags (be32_bytes 0) h7 in
    splice Offsets.sector_size (be32_bytes sector_size) h8

module _ (crc32 : List ℕ → ℕ) where
  -- Both checksums, over the array with the master keys in place.
  pub seal_header : List ℕ → List ℕ
  seal_header h =
      let mk_crc = crc32 (slice Offsets.master_keys master_key_area_len h) in
      let h' = splice Offsets.master_key_crc32 (be32_bytes mk_crc) h in
      let fields_crc = crc32 (take header_fields_crc_len h') in
      splice Offsets.header_crc32 (be32_bytes fields_crc) h'

  unfoldable pub build_header : ℕ → ℕ → ℕ → ℕ → List ℕ → List ℕ
  unfolding build_fields seal_header
  build_header data_area_start data_area_size hidden_volume_size sector_size master_key_area =
      seal_header (
        splice Offsets.master_keys master_key_area
          (build_fields data_area_start data_area_size hidden_volume_size sector_size))

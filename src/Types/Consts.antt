-- ===== src/Types/Consts.antt =====
-- core/vc-types/src/lib.rs (module consts), and two lengths of core/vc-types/src/header.rs.
use vault_pony_core.Prelude.{ℕ, ◌+◌, List, [], ◌∷◌}

abbrev pub salt_len : ℕ
salt_len = 64

abbrev pub header_enc_len : ℕ
header_enc_len = 448

abbrev pub header_region_len : ℕ
header_region_len = salt_len + header_enc_len

-- ASCII "VERA".
abbrev pub header_magic : List ℕ
header_magic = b'V' ∷ b'E' ∷ b'R' ∷ b'A' ∷ []

abbrev pub primary_header_offset : ℕ
primary_header_offset = 0

abbrev pub hidden_header_offset : ℕ
hidden_header_offset = 65_536

abbrev pub backup_standard_from_end : ℕ
backup_standard_from_end = 131_072

abbrev pub backup_hidden_from_end : ℕ
backup_hidden_from_end = 65_536

abbrev pub xts_data_unit_len : ℕ
xts_data_unit_len = 512

abbrev pub pim_iter_base : ℕ
pim_iter_base = 15_000

abbrev pub pim_iter_per_unit : ℕ
pim_iter_per_unit = 1_000

abbrev pub sector_sizes : List ℕ
sector_sizes = 512 ∷ 4096 ∷ []

abbrev pub header_fields_crc_len : ℕ
header_fields_crc_len = 188

abbrev pub master_key_area_len : ℕ
master_key_area_len = 256

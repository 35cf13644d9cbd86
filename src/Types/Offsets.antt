-- ===== src/Types/Offsets.antt =====
-- core/vc-types/src/header.rs (module offsets).
use vault_pony_core.Prelude.{ℕ}

-- Byte offsets within the decrypted 448-byte header. The two reserved fields that no code reads or
-- writes have no constant.
abbrev pub magic : ℕ
magic = 0

abbrev pub header_version : ℕ
header_version = 4

abbrev pub min_program_version : ℕ
min_program_version = 6

abbrev pub master_key_crc32 : ℕ
master_key_crc32 = 8

abbrev pub hidden_volume_size : ℕ
hidden_volume_size = 28

abbrev pub volume_size : ℕ
volume_size = 36

abbrev pub encrypted_area_start : ℕ
encrypted_area_start = 44

abbrev pub encrypted_area_size : ℕ
encrypted_area_size = 52

abbrev pub flags : ℕ
flags = 60

abbrev pub sector_size : ℕ
sector_size = 64

abbrev pub header_crc32 : ℕ
header_crc32 = 188

abbrev pub master_keys : ℕ
master_keys = 192

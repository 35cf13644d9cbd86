-- ===== src/Types/Header.antt =====
-- core/vc-types/src/header.rs: where headers stand, and what a validated header holds. Wiping of
-- key material on drop and the redacting `Debug` are not modelled.
use vault_pony_core.Prelude.{ℕ, Bool, true, false, List}

pub data HeaderPosition : Type 0 where
  primary hidden backup_primary backup_hidden : HeaderPosition

unfoldable pub is_hidden : HeaderPosition → Bool
is_hidden hidden = true
is_hidden backup_hidden = true
is_hidden primary = false
is_hidden backup_primary = false

pub record VolumeGeometry : Type 0 where
  pub volume_size : ℕ
  pub encrypted_area_start : ℕ
  pub encrypted_area_size : ℕ
  pub sector_size : ℕ
  pub hidden_volume_size : ℕ

-- `master_keys` holds 256 bytes.
pub record VolumeHeader : Type 0 where
  pub header_version : ℕ
  pub min_program_version : ℕ
  pub flags : ℕ
  pub geometry : VolumeGeometry
  pub position : HeaderPosition
  pub master_keys : List ℕ

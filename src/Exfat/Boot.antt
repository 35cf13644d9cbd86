-- ===== src/Exfat/Boot.antt =====
-- core/norse-exfat/src/boot.rs: reading the boot region.
use vault_pony_core.Prelude.{ℕ, ◌*◌, ◌/◌, length}
use vault_pony_core.Prelude.Results.{guard_M, lift, pure, ◌>>=◌, ◌>>◌}
use vault_pony_core.Exfat.Error.{invalid, Disk, X, try_io}
use vault_pony_core.Exfat.Sector.{Geometry, rolling, boot_skip, repeats, parse_boot_sector}

module _ (d : Disk) where
  unfoldable pub verify_vbr_checksum : ℕ → X d.State (Unit {0})
  verify_vbr_checksum bps = do
    region ← try_io (d.read_at 0 (bps * 11))
    let checksum = rolling boot_skip 0 0 region
    sector ← try_io (d.read_at (bps * 11) bps)
    guard_M (repeats (length sector / 4) checksum sector) (invalid "VBR checksum mismatch")

  unfoldable pub read_boot_region : X d.State Geometry
  unfolding verify_vbr_checksum
  read_boot_region = do
    bs ← try_io (d.read_at 0 512)
    geo ← lift (parse_boot_sector bs)
    verify_vbr_checksum geo.bytes_per_sector
    pure geo

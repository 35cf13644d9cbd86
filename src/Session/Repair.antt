-- ===== src/Session/Repair.antt =====
-- core/vault-core/src/lib.rs: the repair operations as the shells call them.
use vault_pony_core.Prelude.{ℕ, List}
use vault_pony_core.Types.Error.{M, pure, ◌>>=◌}
use vault_pony_core.Device.{BlockDevice}
use vault_pony_core.Crypto.Primitives.{Primitives}
use vault_pony_core.Format.Volume.{Rng, W}
use vault_pony_core.Format.Repair

module _ (c : Primitives) (d : BlockDevice) where
  unfoldable export_header_backup : M d.State (List ℕ)
  export_header_backup = Repair.export_headers d

  unfoldable restore_header_from_file :
      (backup passphrase : List ℕ) → (pim : ℕ) → M d.State (Unit {0})
  restore_header_from_file backup passphrase pim = do
    found ← Repair.restore_from_file c d backup (record { passphrase = passphrase; pim = pim })
    pure tt

  unfoldable restore_header_from_embedded : (passphrase : List ℕ) → (pim : ℕ) → M d.State (Unit {0})
  restore_header_from_embedded passphrase pim = do
    found ← Repair.restore_primary_from_embedded c d (record { passphrase = passphrase; pim = pim })
    pure tt

  module _ (r : Rng) where
    unfoldable change_header_password :
        (old : List ℕ) → (old_pim : ℕ) → (new : List ℕ) → (new_pim : ℕ) → M (W c d r) (Unit {0})
    change_header_password old old_pim new new_pim =
        Repair.change_password c d r (record { passphrase = old; pim = old_pim })
          (record { passphrase = new; pim = new_pim })

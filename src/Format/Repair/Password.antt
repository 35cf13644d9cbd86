-- ===== src/Format/Repair/Password.antt =====
-- `change_password` of core/vc-format/src/repair.rs: what a wrong old password does.
use vault_pony_core.Prelude.{ℕ, ◌^◌, ◌<◌, ◌≤◌, ◌≡◌, subst, List, [], ◌∷◌, length}
use vault_pony_core.Types.Consts.{header_region_len}
use vault_pony_core.Types.Error.{VcError, err}
use vault_pony_core.Types.Header.{primary, hidden, backup_primary, backup_hidden}
use vault_pony_core.Device.{BlockDevice}
use vault_pony_core.Device.Store.{IsStore}
use vault_pony_core.Device.Runs.{Stored, Runs, Stored-Readable, Runs-bind, Runs-stop, Runs-len}
use vault_pony_core.Crypto.Primitives.{Primitives}
use vault_pony_core.Format.Search.{UnlockSecret, find_header_at}
use vault_pony_core.Format.Search.Bytes.{search_in, find_header_at-Runs}
use vault_pony_core.Format.Volume.{Rng, W, on_device}
use vault_pony_core.Format.Volume.Steps.{IsRandom, Holds, Runs-on_device}
use vault_pony_core.Format.Repair.{change_password}

module _ (c : Primitives) (d : BlockDevice) (store : IsStore d) (r : Rng)
    (random : IsRandom r) where
  -- When the old password opens none of the four positions, the change of password answers the error
  -- of that search, the container holds the same bytes, and nothing has been drawn from the random
  -- source. The container has room for one header and its length is a 64-bit number.
  pub change_password-refused :
      (old new : UnlockSecret) (xs : List ℕ) (t : r.State) (w : W c d r) (e : VcError)
      → header_region_len ≤ length xs
      → length xs < 2 ^ 64
      → search_in c old (primary ∷ hidden ∷ backup_primary ∷ backup_hidden ∷ []) xs ≡ err e
      → Holds c d store r random (xs, t) w
      → ((change_password c d r old new w).0 ≡ err e)
        × Holds c d store r random (xs, t) (change_password c d r old new w).1
  unfolding change_password
  change_password-refused old new xs t w e big small wrong holds =
      Runs-bind (Holds c d store r random) (on_device d.len) _
        (Runs-on_device c d store r random d.len t (Runs-len d store xs))
        (Runs-stop (Holds c d store r random)
          (on_device
            (find_header_at c d old (primary ∷ hidden ∷ backup_primary ∷ backup_hidden ∷ [])))
          _
          (Runs-on_device c d store r random _ t (
            subst
              (λ q.
                Runs (Stored d store)
                  (find_header_at c d old (primary ∷ hidden ∷ backup_primary ∷ backup_hidden ∷ []))
                  xs q xs)
              wrong
              (find_header_at-Runs c d (Stored d store) xs (Stored-Readable d store xs) old
                (primary ∷ hidden ∷ backup_primary ∷ backup_hidden ∷ []) big small))))
        w holds

-- ===== src/Format/Decrypted.antt =====
-- core/vc-format/src/decrypted.rs: the device of the decrypted data area. Offsets are 64-bit; unit
-- numbers count from the start of the container.
pub mod Units
pub mod Read
pub mod Write
pub mod Stored
use vault_pony_core.Prelude.{
  ℕ, ◌+◌, ◌-◌, ◌/◌, ◌%◌, Bool, true, false, not, ◌||◌, Option, none, some, List, [], ltb, ◌==◌,
  if◌then◌else◌, length, replicate,
}
use vault_pony_core.Prelude.Slices.{slice, splice}
use vault_pony_core.Prelude.Words.{add64, sub64, mul64, checked_add, div_ceil}
use vault_pony_core.Types.Consts.{xts_data_unit_len}
use vault_pony_core.Types.Error.{M, pure, fail, io, unexpected_eof, ◌>>=◌, ◌>>◌}
use vault_pony_core.Types.Header.{VolumeGeometry}
use vault_pony_core.Device.{BlockDevice}
use vault_pony_core.Crypto.Xts.{XtsMode, SchemeXts, decrypt_units, encrypt_units}

-- The fields of `DecryptedDevice` that no call changes. The wrapped device is the state.
pub record DecryptedDevice : Type 0 where
  pub xts : SchemeXts
  pub data_start : ℕ
  pub data_size : ℕ

unfoldable pub new : SchemeXts → VolumeGeometry → DecryptedDevice
new e g = record { xts = e; data_start = g.encrypted_area_start; data_size = g.encrypted_area_size }

-- `offset.checked_add(len).is_none_or(|end| end > size)`
abbrev past_end : ℕ → ℕ → ℕ → Bool
past_end size offset n = elim (checked_add offset n) [ none ↦ true | some e ↦ ltb size e ]

-- The range of whole units around the bytes `abs .. abs + n`.
abbrev aligned_start : ℕ → ℕ
aligned_start abs = sub64 abs (abs % xts_data_unit_len)

abbrev aligned_end : ℕ → ℕ → ℕ
aligned_end abs n = mul64 (div_ceil (add64 abs n) xts_data_unit_len) xts_data_unit_len

abbrev span : ℕ → ℕ → ℕ
span abs n = sub64 (aligned_end abs n) (aligned_start abs)

module _ (x : XtsMode) (d : BlockDevice) (v : DecryptedDevice) where
  pub read_units : ℕ → ℕ → M d.State (List ℕ)
  read_units abs n = do
    block ← d.read_at (aligned_start abs) (span abs n)
    pure (decrypt_units x v.xts block (aligned_start abs / xts_data_unit_len))

  pub read_at : ℕ → ℕ → M d.State (List ℕ)
  unfolding read_units
  read_at offset n =
      if past_end v.data_size offset n
      then fail (io unexpected_eof)
      else if n == 0
      then pure []
      else do
        let abs = add64 v.data_start offset
        block ← read_units abs n
        pure (slice (sub64 abs (aligned_start abs)) n block)

  -- The old plaintext of the span is read only when an edge falls inside a unit.
  pub old_block : ℕ → ℕ → M d.State (List ℕ)
  unfolding read_units
  old_block abs n =
      if not (sub64 abs (aligned_start abs) == 0) || not (add64 abs n % xts_data_unit_len == 0)
      then read_units abs n
      else pure (replicate (span abs n) 0)

  pub write_at : ℕ → List ℕ → M d.State (Unit {0})
  unfolding old_block
  write_at offset buf =
      if past_end v.data_size offset (length buf)
      then fail (io unexpected_eof)
      else if length buf == 0
      then pure tt
      else do
        let abs = add64 v.data_start offset
        block ← old_block abs (length buf)
        d.write_at (aligned_start abs) (
            encrypt_units x v.xts (splice (sub64 abs (aligned_start abs)) buf block)
              (aligned_start abs / xts_data_unit_len))

  -- The implementation of the trait `BlockDevice`.
  abbrev pub decrypted_device : BlockDevice
  decrypted_device = record {
    State = d.State;
    len = pure v.data_size;
    read_at = read_at;
    write_at = write_at;
    flush = d.flush;
  }

-- ===== src/Format/Repair.antt =====
-- core/vc-format/src/repair.rs: backup and restore of headers, and the change of a password.
pub mod Restore
pub mod Export
pub mod Password
use vault_pony_core.Prelude.{
  ℕ, ◌+◌, ◌*◌, Bool, not, Option, none, some, List, [], ◌∷◌, ◌++◌, ltb, leb, ◌==◌, if◌then◌else◌,
  length, take,
}
use vault_pony_core.Prelude.Slices.{slice}
use vault_pony_core.Prelude.Words.{add64, sub64}
use vault_pony_core.Types.Consts.{
  salt_len, header_enc_len, primary_header_offset, hidden_header_offset, backup_standard_from_end,
  backup_hidden_from_end,
}
use vault_pony_core.Types.Error.{
  VcResult, ok, err, M, pure, fail, lift, guard_M, internal, io, unexpected_eof,
  not_found_or_wrong_password, ◌>>=◌, ◌>>◌,
}
use vault_pony_core.Types.Header.{
  HeaderPosition, primary, hidden, backup_primary, backup_hidden, is_hidden,
}
use vault_pony_core.Types.Registry.{key_bytes, iterations_for_pim}
use vault_pony_core.Device.{BlockDevice}
use vault_pony_core.Crypto.Primitives.{Primitives}
use vault_pony_core.Crypto.Xts
use vault_pony_core.Crypto.Xts.{SchemeXts, encrypt_header, decrypt_header}
use vault_pony_core.Crypto.Kdf.{derive_header_key, as_bytes}
use vault_pony_core.Format.Parse.{parse_decrypted_header}
use vault_pony_core.Format.Search.{UnlockSecret, FoundHeader, position_offset, find_header_at}
use vault_pony_core.Format.Volume.{Rng, World, on_device, W, fill_random}

abbrev pub header_region : ℕ
header_region = 65_536

abbrev pub header_group : ℕ
header_group = 2 * header_region

unfoldable pub export_headers : (d : BlockDevice) → M d.State (List ℕ)
export_headers d = do
  len ← d.len
  guard_M (not (ltb len header_group)) not_found_or_wrong_password
  d.read_at 0 header_group

-- `SliceDevice`: an exported group, read only.
abbrev pub slice_device : List ℕ → BlockDevice
slice_device bytes = record {
  State = Unit {0};
  len = pure (length bytes);
  read_at = λ offset n.
      if ltb (length bytes) (offset + n)
      then fail (io unexpected_eof)
      else pure (slice offset n bytes);
  write_at = λ offset b. fail (internal "backup verification is read-only");
  flush = pure tt;
}

module _ (c : Primitives) (d : BlockDevice) where
  unfoldable pub restore_from_file : List ℕ → UnlockSecret → M d.State FoundHeader
  restore_from_file backup secret = do
    guard_M (length backup == header_group) (internal "backup must be 131072 bytes")
    found ← lift (find_header_at c (slice_device backup) secret (primary ∷ []) tt).0
    d.write_at 0 backup
    d.flush
    pure found

  unfoldable pub restore_primary_from_embedded : UnlockSecret → M d.State FoundHeader
  restore_primary_from_embedded secret = do
    found ← find_header_at c d secret (backup_primary ∷ [])
    len ← d.len
    region ← d.read_at (sub64 len backup_standard_from_end) header_region
    d.write_at 0 region
    d.flush
    pure found

-- The slots that are rewritten. Subtractions are 64-bit and wrap.
abbrev pub slots_of : HeaderPosition → ℕ → ℕ × ℕ
slots_of position len =
    if is_hidden position
    then (hidden_header_offset, sub64 len backup_hidden_from_end)
    else (primary_header_offset, sub64 len backup_standard_from_end)

abbrev offset_or : Option ℕ → VcResult ℕ
offset_or none = err (internal "matched header offset missing")
offset_or (some off) = ok off

module _ (c : Primitives) (d : BlockDevice) (r : Rng) where
  -- One round of the loop over the two slots, for the header plaintext recovered.
  pub rewrite_slot : FoundHeader → UnlockSecret → List ℕ → ℕ → M (W c d r) (Unit {0})
  rewrite_slot found new plaintext off = do
    new_salt ← fill_random c d r salt_len
    new_key ← lift (
        derive_header_key c.kdf found.prf.name new.passphrase new_salt
          (iterations_for_pim found.prf new.pim) (key_bytes found.scheme))
    xts_new ← lift (Xts.new found.scheme (as_bytes new_key))
    on_device (d.write_at off (new_salt ++ encrypt_header c.mode xts_new plaintext))

  -- The plaintext of the header that the old password opens, verified.
  pub recover_plaintext : FoundHeader → UnlockSecret → ℕ → M d.State (List ℕ)
  recover_plaintext found old len = do
    matched_off ← lift (offset_or (position_offset found.header.position len))
    salt ← d.read_at matched_off salt_len
    enc ← d.read_at (add64 matched_off salt_len) header_enc_len
    old_key ← lift (
        derive_header_key c.kdf found.prf.name old.passphrase salt
          (iterations_for_pim found.prf old.pim) (key_bytes found.scheme))
    xts_old ← lift (Xts.new found.scheme (as_bytes old_key))
    let plaintext = decrypt_header c.mode xts_old enc
    checked ← lift (parse_decrypted_header c.crc32 plaintext found.header.position)
    pure plaintext

  unfoldable pub change_password : UnlockSecret → UnlockSecret → M (W c d r) (Unit {0})
  unfolding rewrite_slot recover_plaintext
  change_password old new = do
    len ← on_device d.len
    found ←
        on_device (find_header_at c d old (primary ∷ hidden ∷ backup_primary ∷ backup_hidden ∷ []))
    plaintext ← on_device (recover_plaintext found old len)
    let offsets = slots_of found.header.position len
    rewrite_slot found new plaintext offsets.0
    rewrite_slot found new plaintext offsets.1
    on_device d.flush

-- ===== src/Format/Volume/Opening.antt =====
-- A header copy that core/vc-format/src/create.rs wrote opens for the search of
-- core/vc-format/src/lib.rs.
use vault_pony_core.Prelude.{
  ℕ, ◌+◌, ◌≤◌, ◌≡◌, sym, ap, ◌∙◌, List, length, take, take-append, drop-append, take_all, arith,
}
use vault_pony_core.Prelude.Slices.{slice, slice-slice}
use vault_pony_core.Types.Consts.{salt_len, header_enc_len, header_region_len}
use vault_pony_core.Types.Error.{ok, ok_injective}
use vault_pony_core.Types.Header.{HeaderPosition, VolumeHeader}
use vault_pony_core.Types.Registry.{key_bytes, iterations_for_pim}
use vault_pony_core.Device.{BlockDevice}
use vault_pony_core.Device.Store.{IsStore}
use vault_pony_core.Crypto.Primitives.{Primitives}
use vault_pony_core.Crypto.Xts
use vault_pony_core.Crypto.Xts.RoundTrip.{
  IsXts, length-encrypt_header, decrypt_header-encrypt_header,
}
use vault_pony_core.Crypto.Kdf.{HeaderKey, as_bytes, max_header_key}
use vault_pony_core.Crypto.Kdf.Laws.{DerivesPrefixes}
use vault_pony_core.Crypto.Keyfile.{apply_keyfiles}
use vault_pony_core.Format.Parse.{parse_decrypted_header}
use vault_pony_core.Format.Search.{UnlockSecret, Slot, derive_for}
use vault_pony_core.Format.Search.Bytes.{slot_at}
use vault_pony_core.Format.Search.Sound.{Opens}
use vault_pony_core.Format.Volume.{CreateParams, Rng}
use vault_pony_core.Format.Volume.Steps.{IsRandom, IsCopy}

-- The secret that opens what was created: the passphrase with the keyfiles applied.
abbrev pub secret_of : CreateParams → UnlockSecret
secret_of params = record {
  passphrase = apply_keyfiles params.passphrase params.keyfiles;
  pim = params.pim;
}

module _ (c : Primitives) (params : CreateParams) where
  -- The attempt of the search on this slot succeeds with this header, when it derives `n` bytes of
  -- key for all schemes at once.
  abbrev pub SlotOpens : ℕ → Slot → VolumeHeader → Type 0
  SlotOpens n slot header =
      (key : HeaderKey) × (derive_for c params.prf (secret_of params) slot.salt n ≡ ok key)
      × Opens c params.scheme key slot.enc slot.position header

module _ (c : Primitives) (d : BlockDevice) (store : IsStore d) (r : Rng) (random : IsRandom r)
    (laws : IsXts c.mode) (params : CreateParams) (derives : DerivesPrefixes c.kdf params.prf) where
  pub copy-SlotOpens :
      (off : ℕ) (bytes header region : List ℕ) (pos : HeaderPosition) (h : VolumeHeader)
      → length header ≡ header_enc_len
      → IsCopy c d store r random laws params derives header region
      → slice off header_region_len bytes ≡ region
      → parse_decrypted_header c.crc32 header pos ≡ ok h
      → (n : ℕ) → key_bytes params.scheme ≤ n
      → n ≤ max_header_key
      → SlotOpens c params n (slot_at pos off bytes) h
  unfolding derive_for slot_at
  copy-SlotOpens off bytes header region pos h size copy at parses n long fits =
      let (key, derived, length-key, prefixes) =
        derives (apply_keyfiles params.passphrase params.keyfiles) copy.salt
          (iterations_for_pim params.prf params.pim) n fits in
      let (shorter, derived_shorter, cut) = prefixes (key_bytes params.scheme) long in
      let prefix : take (key_bytes params.scheme) (as_bytes key) ≡ as_bytes copy.key =
        sym cut ∙ ap as_bytes (ok_injective (sym derived_shorter ∙ copy.derived)) in
      (
        key,
        ap (λ s. derive_for c params.prf (secret_of params) s n) copied_salt ∙ derived,
        (
          copy.engine,
          ap (Xts.new params.scheme) prefix ∙ copy.keyed,
          ap (λ e. parse_decrypted_header c.crc32 (Xts.decrypt_header c.mode copy.engine e) pos)
                copied_enc
              ∙ ap (λ p. parse_decrypted_header c.crc32 p pos)
                  (decrypt_header-encrypt_header c.mode laws copy.engine header)
              ∙ parses,
        ),
      )
    where
      enc : List ℕ
      enc = Xts.encrypt_header c.mode copy.engine header

      copied_salt : slice off salt_len bytes ≡ copy.salt
      copied_salt =
          sym (slice-slice off header_region_len 0 salt_len off bytes (omega arith) (omega arith))
          ∙ ap (slice 0 salt_len) (at ∙ copy.joined)
          ∙ take-append salt_len copy.salt enc (sym copy.length-salt)

      copied_enc : slice (off + salt_len) header_enc_len bytes ≡ enc
      copied_enc =
          sym (
            slice-slice off header_region_len salt_len header_enc_len (off + salt_len) bytes
              (omega arith) (omega arith))
          ∙ ap (slice salt_len header_enc_len) (at ∙ copy.joined)
          ∙ ap (take header_enc_len) (drop-append salt_len copy.salt enc (sym copy.length-salt))
          ∙ take_all header_enc_len enc
              (omega (arith, length-encrypt_header c.mode laws copy.engine header, size))

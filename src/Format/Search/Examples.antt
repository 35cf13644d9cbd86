-- ===== src/Format/Search/Examples.antt =====
-- Tests of the search for headers, on a header of which the key is known.
use vault_pony_core.Prelude.{
  length-replicate, arith, ◌++◌, length-append, drop, ℕ, ◌≡◌, inl, refl, ◌↔◌, List, [], ◌∷◌, length,
  replicate,
}
use vault_pony_core.Prelude.Slices.{slice}
use vault_pony_core.Types.Error.{ok, err, not_found_or_wrong_password}
use vault_pony_core.Types.Header.{primary}
use vault_pony_core.Types.Registry.{
  EncryptionScheme, key_bytes, scheme, aes, Prf, prf_of, iterations_for_pim,
}
use vault_pony_core.Crypto.Xts.{SchemeXts, encrypt_header, decrypt_header, supported}
use vault_pony_core.Crypto.Xts.{supported}
use vault_pony_core.Crypto.Xts
use vault_pony_core.Crypto.Kdf.{HeaderKey, derive_header_key}
use vault_pony_core.Format.Parse.{parse_decrypted_header, header_of}
use vault_pony_core.Format.Create.{build_header}
use vault_pony_core.Format.Search.{
  position_offset, supported_of, max_key_len_of, sweep, sweep_default, sweep_prfs, UnlockSecret,
  Slot, FoundHeader, found, miss, attempt, search, derive_for, try_schemes, try_schemes_from,
  try_scheme, finish, start,
}
use vault_pony_core.Format.Search.Order.{pairs_of, try_pairs, search-try_pairs}
use vault_pony_core.Format.Search.Outcome.{LeadsTo, search-ok_iff}
use vault_pony_core.Format.Search.Wrong.{search-wrong_password_iff}
use vault_pony_core.Format.Search.Sound.{In, Opens, search_sound}
use vault_pony_core.Format.Search.Bytes.{search_in, slots_in, slot_at}
use vault_pony_core.Format.Repair.{header_group, export_headers, restore_from_file, change_password}
use vault_pony_core.Format.Repair.Export.{restore_from_file-export_headers}
use vault_pony_core.Format.Repair.Password.{change_password-refused}
use vault_pony_core.Format.Volume.{World}
use vault_pony_core.Format.Volume.Steps.{Holds}
use vault_pony_core.Types.Header.{HeaderPosition, hidden, backup_primary, backup_hidden}
use vault_pony_core.Sample.{
  counting, counting-IsRandom, memory, memory-IsStore, sum_crc, primitives, shift_mode,
}

abbrev aes_only : EncryptionScheme
aes_only = scheme "AES" (aes ∷ [])

abbrev sha : Prf
sha = prf_of "SHA-512" 0

abbrev secret : UnlockSecret
secret = record { passphrase = 112 ∷ 119 ∷ []; pim = 0 }

-- Ciphertext that decrypts to a header under every key of 32 bytes.
abbrev header : List ℕ
header = build_header sum_crc 131_072 1_048_576 0 512 (replicate 256 5)

abbrev engine : SchemeXts
engine = record {
  layers = record { cipher = aes; primary = replicate 32 0; secondary = replicate 32 0 } ∷ [];
}

abbrev slot : Slot
slot = record {
  position = primary;
  salt = replicate 64 1;
  enc = encrypt_header shift_mode engine header;
}

abbrev answer : FoundHeader
answer = record {
  header = record {
    header_version = 5;
    min_program_version = 0x010b;
    flags = 0;
    geometry = record {
      volume_size = 1_048_576;
      encrypted_area_start = 131_072;
      encrypted_area_size = 1_048_576;
      sector_size = 512;
      hidden_volume_size = 0;
    };
    position = primary;
    master_keys = replicate 256 5;
  };
  scheme = aes_only;
  prf = sha;
}

opens : attempt primitives (aes_only ∷ []) 64 secret sha slot ≡ ok (found answer.header aes_only)
unfolding attempt derive_for derive_header_key try_schemes try_schemes_from try_scheme Xts.new
    encrypt_header decrypt_header parse_decrypted_header build_header iterations_for_pim key_bytes
    header_of
opens = refl

searched : (search primitives (aes_only ∷ []) 64 secret (sha ∷ []) (slot ∷ [])).0 ≡ ok answer
searched =
    (search-ok_iff primitives (aes_only ∷ []) 64 secret sha [] (slot ∷ []) answer).1
      (inl (opens, refl))

search-try_pairs_example :
    search primitives (aes_only ∷ []) 64 secret (sha ∷ []) (slot ∷ slot ∷ [])
    ≡ finish (
        try_pairs primitives
          (aes_only ∷ [])
          64
          secret
          2
          (pairs_of (sha ∷ []) (slot ∷ slot ∷ []))
          start)
search-try_pairs_example =
    search-try_pairs primitives (aes_only ∷ []) 64 secret sha [] (slot ∷ slot ∷ [])

search-ok_iff_example :
    ((search primitives (aes_only ∷ []) 64 secret (sha ∷ []) (slot ∷ [])).0 ≡ ok answer)
    ↔ LeadsTo primitives (aes_only ∷ []) 64 secret answer (pairs_of (sha ∷ []) (slot ∷ []))
search-ok_iff_example = search-ok_iff primitives (aes_only ∷ []) 64 secret sha [] (slot ∷ []) answer

search_sound_example :
    (t : Slot) × (key : HeaderKey) × In (answer.prf, t) (pairs_of (sha ∷ []) (slot ∷ []))
    × (derive_for primitives answer.prf secret t.salt 64 ≡ ok key)
    × In answer.scheme (aes_only ∷ [])
    × Opens primitives answer.scheme key t.enc t.position answer.header
search_sound_example =
    search_sound primitives (aes_only ∷ []) 64 secret sha [] (slot ∷ []) answer searched

abbrev noise : Slot
noise = record { position = primary; salt = replicate 64 1; enc = replicate 448 77 }

noise_misses : attempt primitives (aes_only ∷ []) 64 secret sha noise ≡ ok miss
unfolding attempt derive_for derive_header_key try_schemes try_schemes_from try_scheme Xts.new
    decrypt_header parse_decrypted_header iterations_for_pim key_bytes
noise_misses = refl

-- The search of noise, which misses.
noise_refused :
    (search primitives (aes_only ∷ []) 64 secret (sha ∷ []) (noise ∷ [])).0
    ≡ err not_found_or_wrong_password
noise_refused =
    ((search-wrong_password_iff primitives (aes_only ∷ []) 64 secret sha [] (noise ∷ [])).1
      (noise_misses, tt)).0

abbrev container : List ℕ
container = slot.salt ++ (slot.enc ++ replicate 130_560 0)

container_opens : search_in primitives secret (primary ∷ []) container ≡ ok answer
unfolding search_in slots_in slot_at position_offset search sweep_default sweep_prfs sweep attempt
    derive_for derive_header_key try_schemes try_schemes_from try_scheme Xts.new encrypt_header
    decrypt_header parse_decrypted_header build_header iterations_for_pim key_bytes header_of
    supported_of supported max_key_len_of
container_opens = refl

length-enc : length slot.enc ≡ 448
unfolding encrypt_header build_header
length-enc = refl

length-container : length container ≡ 131_072
length-container = omega (
  arith,
  length-append slot.salt (slot.enc ++ replicate 130_560 0),
  length-append slot.enc (replicate 130_560 0),
  length-replicate {A = ℕ} 64 1,
  length-replicate {A = ℕ} 130_560 0,
  length-enc,
)

abbrev damaged : List ℕ
damaged = replicate 131_073 9

restore_from_file-export_headers_example :
    let e = export_headers memory container in
    let backup = slice 0 header_group container in
    let w = restore_from_file primitives memory backup secret damaged in
    (e.0 ≡ ok backup)
    × (e.1 ≡ container)
    × (w.0 ≡ ok answer)
    × (w.1 ≡ backup ++ drop header_group damaged)
restore_from_file-export_headers_example =
    restore_from_file-export_headers primitives secret memory memory-IsStore container damaged
      answer tt tt (omega (arith, length-container))
      (omega (arith, length-replicate {A = ℕ} 131_073 9)) container_opens

-- Too small for any but the primary header, and that is noise.
abbrev junk : List ℕ
junk = replicate 64 1 ++ replicate 448 77

abbrev everywhere : List HeaderPosition
everywhere = primary ∷ hidden ∷ backup_primary ∷ backup_hidden ∷ []

junk_misses : search_in primitives secret everywhere junk ≡ err not_found_or_wrong_password
unfolding search_in slots_in slot_at position_offset search sweep_default sweep_prfs sweep attempt
    derive_for derive_header_key try_schemes try_schemes_from try_scheme Xts.new decrypt_header
    parse_decrypted_header iterations_for_pim key_bytes supported_of supported max_key_len_of
junk_misses = refl

abbrev junk_world : World (List ℕ) ℕ
junk_world = record { dev = junk; rng = 1 }

change_password-refused_example :
    ((change_password primitives memory counting secret secret junk_world).0
      ≡ err not_found_or_wrong_password)
    × Holds primitives memory memory-IsStore counting counting-IsRandom
        (junk, 1)
        (change_password primitives memory counting secret secret junk_world).1
change_password-refused_example =
    change_password-refused primitives memory memory-IsStore counting counting-IsRandom secret
      secret junk 1 junk_world not_found_or_wrong_password (omega arith) (omega arith) junk_misses
      ((tt, refl), refl)

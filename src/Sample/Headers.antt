-- ===== src/Sample/Headers.antt =====
-- Tests of headers: their layout, the search for them, their creation and repair.
use vault_pony_core.Prelude.{
  ℕ, ◌-◌, ◌≤◌, ◌≡◌, ◌≢◌, inl, refl, ◌↔◌, List, [], ◌∷◌, length, replicate, length-replicate, arith,
}
use vault_pony_core.Prelude.Slices.{slice, splice}
use vault_pony_core.Types.Error.{ok, err, not_found_or_wrong_password}
use vault_pony_core.Types.Header.{primary, hidden, backup_primary, backup_hidden}
use vault_pony_core.Types.Registry.{EncryptionScheme, key_bytes, scheme, aes, Prf, prf_of}
use vault_pony_core.Crypto.Kdf.Laws.{DerivesPrefixes, prfs-DerivesPrefixes}
use vault_pony_core.Format.Parse.{parse_decrypted_header}
use vault_pony_core.Format.Parse.Accept.{
  IsHeader, HasValues, parse_decrypted_header-ok_iff, parse_decrypted_header-wrong_password_iff,
}
use vault_pony_core.Format.Create.{build_header}
use vault_pony_core.Format.Create.RoundTrip.{expected, parse_decrypted_header-build_header}
use vault_pony_core.Format.Search.{UnlockSecret, find_header_at, position_offset}
use vault_pony_core.Format.Search.Bytes.{search_in, find_header_at_lem}
use vault_pony_core.Format.Search.Positions.{
  Apart, RegionFits, position_offset-Apart, position_offset-RegionFits,
}
use vault_pony_core.Format.Volume.{CreateParams, create_volume, create_hidden, World}
use vault_pony_core.Format.Volume.Hidden.{SizeFits, IsHiddenCreated, create_hidden_lem}
use vault_pony_core.Format.Volume.Create.{IsCreated, create_volume_lem}
use vault_pony_core.Format.Volume.Steps.{Holds}
use vault_pony_core.Format.Repair.{restore_from_file, restore_primary_from_embedded, header_region}
use vault_pony_core.Format.Repair.Restore.{
  repaired, verified, restore_from_file_lem, restore_primary_from_embedded_lem,
}
use vault_pony_core.Sample.{
  memory, memory-IsStore, sum_crc, sum_crc-IsWord, primitives, shift_mode-IsXts, repeat_kdf,
  repeat_kdf-IsPbkdf2, counting, counting-IsRandom,
}

abbrev aes_only : EncryptionScheme
aes_only = scheme "AES" (aes ∷ [])

abbrev sha : Prf
sha = prf_of "SHA-512" 0

abbrev secret : UnlockSecret
secret = record { passphrase = 112 ∷ 119 ∷ []; pim = 0 }

abbrev keys : List ℕ
keys = replicate 256 5

parse_decrypted_header-build_header_example :
    parse_decrypted_header sum_crc (build_header sum_crc 131_072 1_048_576 0 512 keys) primary
    ≡ ok (expected sum_crc 131_072 1_048_576 0 512 keys primary)
parse_decrypted_header-build_header_example =
    parse_decrypted_header-build_header sum_crc 131_072 1_048_576 0 512 keys primary sum_crc-IsWord
      (omega arith) (omega arith) (omega arith) (inl refl) (length-replicate {A = ℕ} 256 5)

abbrev zeros : List ℕ
zeros = replicate 448 0

parse_decrypted_header-ok_iff_example :
    (parse_decrypted_header sum_crc zeros hidden ≡ ok (expected sum_crc 0 0 0 512 keys hidden))
    ↔ (IsHeader sum_crc zeros × HasValues zeros hidden (expected sum_crc 0 0 0 512 keys hidden))
parse_decrypted_header-ok_iff_example =
    parse_decrypted_header-ok_iff sum_crc zeros hidden (expected sum_crc 0 0 0 512 keys hidden)

parse_decrypted_header-wrong_password_iff_example :
    (parse_decrypted_header sum_crc zeros primary ≡ err not_found_or_wrong_password)
    ↔ (slice 0 4 zeros ≢ 86 ∷ 69 ∷ 82 ∷ 65 ∷ [])
parse_decrypted_header-wrong_password_iff_example =
    parse_decrypted_header-wrong_password_iff sum_crc zeros primary

position_offset-RegionFits_example : RegionFits 200_000 (position_offset backup_hidden 200_000)
position_offset-RegionFits_example = position_offset-RegionFits backup_hidden 200_000 (omega arith)

position_offset-Apart_example :
    Apart (position_offset hidden 300_000) (position_offset backup_primary 300_000)
position_offset-Apart_example =
    position_offset-Apart hidden backup_primary 300_000 (omega arith) (λ e. cc)

abbrev blank : List ℕ
blank = replicate 262_656 0

length-blank : length blank ≡ 262_656
length-blank = length-replicate {A = ℕ} 262_656 0

find_header_at_lem_example :
    ((find_header_at primitives memory secret (primary ∷ backup_primary ∷ []) blank).0
      ≡ search_in primitives secret (primary ∷ backup_primary ∷ []) blank)
    × ((find_header_at primitives memory secret (primary ∷ backup_primary ∷ []) blank).1 ≡ blank)
find_header_at_lem_example =
    find_header_at_lem primitives memory memory-IsStore secret (primary ∷ backup_primary ∷ []) blank
      tt (omega (arith, length-blank)) (omega (arith, length-blank))

restore_from_file_lem_example :
    let t = restore_from_file primitives memory (replicate 131_072 1) secret blank in
    (t.0 ≡ verified primitives secret (replicate 131_072 1))
    × (t.1
        ≡ repaired
            (verified primitives secret (replicate 131_072 1))
            (splice 0 (replicate 131_072 1) blank)
            blank)
restore_from_file_lem_example =
    restore_from_file_lem primitives secret memory memory-IsStore blank (replicate 131_072 1) tt
      (omega (arith, length-blank))

restore_primary_from_embedded_lem_example :
    let t = restore_primary_from_embedded primitives memory secret blank in
    let r = search_in primitives secret (backup_primary ∷ []) blank in
    (t.0 ≡ r)
    × (t.1 ≡ repaired r (splice 0 (slice (length blank - 131_072) header_region blank) blank) blank)
restore_primary_from_embedded_lem_example =
    restore_primary_from_embedded_lem primitives secret memory memory-IsStore blank tt
      (omega (arith, length-blank)) (omega (arith, length-blank))

sha-DerivesPrefixes : DerivesPrefixes repeat_kdf sha
sha-DerivesPrefixes = (prfs-DerivesPrefixes repeat_kdf repeat_kdf-IsPbkdf2).0

aes_fits : key_bytes aes_only ≤ 192
unfolding key_bytes
aes_fits = omega arith

abbrev params : CreateParams
params = record {
  scheme = aes_only;
  prf = sha;
  pim = 0;
  passphrase = 112 ∷ 119 ∷ [];
  keyfiles = (1 ∷ 2 ∷ []) ∷ [];
  size = 262_656;
  sector_size = 512;
}

abbrev world : World (List ℕ) ℕ
world = record { dev = blank; rng = 1 }

create_volume_lem_example :
    (ys : List ℕ) × (u : ℕ) × IsCreated primitives params 192
      (counting-IsRandom.bytes 256 1)
      blank
      ys
    × (((create_volume primitives memory counting params world).0 ≡ ok (131_072, 512))
        × Holds primitives memory memory-IsStore counting counting-IsRandom
            (ys, u)
            (create_volume primitives memory counting params world).1)
create_volume_lem_example =
    create_volume_lem primitives memory memory-IsStore counting counting-IsRandom shift_mode-IsXts
      sum_crc-IsWord params sha-DerivesPrefixes 192 blank 1 world length-blank (inl refl)
      (omega arith) (omega arith) aes_fits (omega arith) ((tt, refl), refl)

abbrev hidden_params : CreateParams
hidden_params = record params { size = 500_000 }

abbrev outer : List ℕ
outer = replicate 500_000 3

abbrev outer_world : World (List ℕ) ℕ
outer_world = record { dev = outer; rng = 1 }

one_sector :
    SizeFits primitives memory memory-IsStore counting counting-IsRandom shift_mode-IsXts
      sum_crc-IsWord hidden_params sha-DerivesPrefixes 4096
one_sector = record {
  sector = inl refl;
  some_sector = omega arith;
  whole = refl;
  room = omega arith;
  small = omega arith;
}

create_hidden_lem_example :
    (ys : List ℕ) × (u : ℕ) × IsHiddenCreated primitives hidden_params 4096 192
      (counting-IsRandom.bytes 256 1)
      outer
      ys
    × (((create_hidden primitives memory counting hidden_params 4096 outer_world).0
          ≡ ok (233_760, 4096))
        × Holds primitives memory memory-IsStore counting counting-IsRandom
            (ys, u)
            (create_hidden primitives memory counting hidden_params 4096 outer_world).1)
create_hidden_lem_example =
    create_hidden_lem primitives memory memory-IsStore counting counting-IsRandom shift_mode-IsXts
      sum_crc-IsWord hidden_params sha-DerivesPrefixes 4096 192 outer 1 outer_world
      (length-replicate {A = ℕ} 500_000 3) one_sector aes_fits (omega arith) ((tt, refl), refl)

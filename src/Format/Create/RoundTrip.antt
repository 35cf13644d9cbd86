-- ===== src/Format/Create/RoundTrip.antt =====
-- `parse_decrypted_header` of core/vc-format/src/parse.rs reads back what `build_header` of
-- core/vc-format/src/create.rs writes.
use vault_pony_core.Prelude.{
  ℕ, ◌+◌, ◌^◌, ◌<◌, ◌≡◌, refl, sym, ap, ◌∙◌, ◌⊎◌, inl, inr, List, ◌++◌, length, length-append, take,
  take_all, drop_all, append-nil, arith,
}
use vault_pony_core.Prelude.Slices.{slice, splice, length-splice}
use vault_pony_core.Prelude.Bytes.{be32_bytes, from_be32_bytes, from_be64_bytes}
use vault_pony_core.Types.Error.{ok}
use vault_pony_core.Types.Header.{HeaderPosition, VolumeGeometry, VolumeHeader}
use vault_pony_core.Format.Parse.{parse_decrypted_header, header_of}
use vault_pony_core.Format.Parse.Accept.{IsHeader, values_of, parse_decrypted_header-ok_iff}
use vault_pony_core.Format.Create.{build_fields, seal_header, build_header}

splice_last :
    (off n : ℕ) (ys xs : List ℕ)
    → length xs ≡ n
    → off + length ys ≡ n
    → splice off ys xs ≡ take off xs ++ ys
splice_last off n ys xs e e' =
    ap (λ t. take off xs ++ (ys ++ t)) (drop_all (off + length ys) xs (omega arith))
    ∙ ap (λ t. take off xs ++ t) (append-nil ys)

module _ (crc32 : List ℕ → ℕ) (start size hidden sector : ℕ) (keys : List ℕ) where
  -- The header before the checksums.
  unsealed : List ℕ
  unfolding build_fields
  unsealed = take 192 (build_fields start size hidden sector) ++ keys

  build_header-unsealed :
      length keys ≡ 256
      → build_header crc32 start size hidden sector keys ≡ seal_header crc32 unsealed
  unfolding build_header unsealed
  build_header-unsealed h =
      ap (seal_header crc32)
        (splice_last 192 448 keys (build_fields start size hidden sector) refl (omega arith))

  sealed_values : VolumeGeometry
  sealed_values = record {
    volume_size = size;
    encrypted_area_start = start;
    encrypted_area_size = size;
    sector_size = sector;
    hidden_volume_size = hidden;
  }

  module _ (pos : HeaderPosition) where
    -- The header that is read back: version 5, program 1.11, no flags, the area and the keys given.
    pub expected : VolumeHeader
    unfolding sealed_values
    expected = record {
      header_version = 5;
      min_program_version = 0x010b;
      flags = 0;
      geometry = sealed_values;
      position = pos;
      master_keys = keys;
    }

    header_of-seal_header :
        start < 2 ^ 64
        → size < 2 ^ 64
        → hidden < 2 ^ 64
        → sector < 2 ^ 32
        → length keys ≡ 256
        → header_of (seal_header crc32 unsealed) pos ≡ expected
    unfolding header_of seal_header unsealed expected
    header_of-seal_header hs hz hh hc hk = λ i. record {
      header_version = 5;
      min_program_version = 0x010b;
      flags = 0;
      geometry = record {
        volume_size = from_be64_bytes size hz i;
        encrypted_area_start = from_be64_bytes start hs i;
        encrypted_area_size = from_be64_bytes size hz i;
        sector_size = from_be32_bytes sector hc i;
        hidden_volume_size = from_be64_bytes hidden hh i;
      };
      position = pos;
      master_keys = take_all 256 keys (omega arith) i;
    }

  seal_header-IsHeader :
      ((bs : List ℕ) → crc32 bs < 2 ^ 32)
      → (sector ≡ 512) ⊎ (sector ≡ 4096)
      → IsHeader crc32 (seal_header crc32 unsealed)
  unfolding seal_header unsealed
  seal_header-IsHeader word hc = record {
    magic = refl;
    fields_crc = sym (from_be32_bytes _ (word _));
    keys_crc = sym (from_be32_bytes _ (word _));
    version = omega arith;
    program = omega arith;
    no_system = refl;
    sector = elim hc [
      | inl e ↦ inl (from_be32_bytes sector (omega arith) ∙ e)
      | inr e ↦ inr (from_be32_bytes sector (omega arith) ∙ e)
    ];
  }

  -- Parsing what `build_header` writes gives back exactly the area, the sector size, the hidden size
  -- and the master keys that it was given, at whatever position the header is found, for every CRC
  -- of 32 bits. The area's numbers are 64-bit, the sector size is one of the two supported, and the
  -- key area has its 256 bytes.
  pub parse_decrypted_header-build_header :
      (pos : HeaderPosition)
      → ((bs : List ℕ) → crc32 bs < 2 ^ 32)
      → start < 2 ^ 64
      → size < 2 ^ 64
      → hidden < 2 ^ 64
      → (sector ≡ 512) ⊎ (sector ≡ 4096)
      → length keys ≡ 256
      → parse_decrypted_header crc32 (build_header crc32 start size hidden sector keys) pos
        ≡ ok (expected pos)
  parse_decrypted_header-build_header pos word hs hz hh hc hk =
      ap (λ d. parse_decrypted_header crc32 d pos) (build_header-unsealed hk)
      ∙ (parse_decrypted_header-ok_iff crc32 (seal_header crc32 unsealed) pos (expected pos)).1 (
        seal_header-IsHeader word hc,
        values_of (seal_header crc32 unsealed) pos (expected pos) (
            header_of-seal_header pos hs hz hh
              (elim hc [ inl e ↦ omega arith | inr e ↦ omega arith ]) hk),
      )

  length-unsealed : length keys ≡ 256 → length unsealed ≡ 448
  unfolding unsealed build_fields
  length-unsealed h =
      omega (arith, length-append (take 192 (build_fields start size hidden sector)) keys, h)

  -- A header is exactly what the encrypted region holds.
  pub length-build_header :
      length keys ≡ 256 → length (build_header crc32 start size hidden sector keys) ≡ 448
  unfolding seal_header
  length-build_header h =
      let sealed_once : List ℕ = splice 8 (be32_bytes (crc32 (slice 192 256 unsealed))) unsealed in
      let once : length sealed_once ≡ length unsealed =
        length-splice 8 (be32_bytes (crc32 (slice 192 256 unsealed))) unsealed
          (omega (arith, length-unsealed h)) in
      ap length (build_header-unsealed h)
      ∙ length-splice 188 (be32_bytes (crc32 (take 188 sealed_once))) sealed_once
          (omega (arith, once, length-unsealed h))
      ∙ once
      ∙ length-unsealed h

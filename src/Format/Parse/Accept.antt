-- ===== src/Format/Parse/Accept.antt =====
-- What core/vc-format/src/parse.rs accepts, and how it tells a wrong password from damage.
use Prim.Native.Nat.{bit_and}
use vault_pony_core.Prelude.{
  ℕ, ◌≤◌, ◌≡◌, ◌≢◌, ◌⊎◌, ap, ==_iff, not-ltb_iff, ◌↔◌, List, true, take, arith,
}
use vault_pony_core.Prelude.Slices.{slice}
use vault_pony_core.Prelude.Bytes.{contains, bytes_eq_iff, be16_at, be32_at, be64_at}
use vault_pony_core.Types.Consts.{sector_sizes, header_magic}
use vault_pony_core.Types.Error.{ok, ok_injective, err, not_found_or_wrong_password}
use vault_pony_core.Types.Pure.{guard_ok, guard_pass}
use vault_pony_core.Types.Header.{HeaderPosition, VolumeHeader}
use vault_pony_core.Format.Parse.{header_of, parse_decrypted_header}

pub sector_sizes_iff : (x : ℕ) → (contains sector_sizes x ≡ true) ↔ ((x ≡ 512) ⊎ (x ≡ 4096))
sector_sizes_iff x = ground arith

-- The values of a header, at their offsets in its 448 bytes.
pub record HasValues (d : List ℕ) (pos : HeaderPosition) (h : VolumeHeader) : Type 0 where
  pub at_4 : be16_at d 4 ≡ h.header_version
  pub at_6 : be16_at d 6 ≡ h.min_program_version
  pub at_28 : be64_at d 28 ≡ h.geometry.hidden_volume_size
  pub at_36 : be64_at d 36 ≡ h.geometry.volume_size
  pub at_44 : be64_at d 44 ≡ h.geometry.encrypted_area_start
  pub at_52 : be64_at d 52 ≡ h.geometry.encrypted_area_size
  pub at_60 : be32_at d 60 ≡ h.flags
  pub at_64 : be32_at d 64 ≡ h.geometry.sector_size
  pub at_192 : slice 192 256 d ≡ h.master_keys
  pub where_found : pos ≡ h.position

pub values_of :
    (d : List ℕ) (pos : HeaderPosition) (h : VolumeHeader) → header_of d pos ≡ h → HasValues d pos h
unfolding header_of
values_of d pos h e = record {
  at_4 = ap (λ (t : VolumeHeader). t.header_version) e;
  at_6 = ap (λ (t : VolumeHeader). t.min_program_version) e;
  at_28 = ap (λ (t : VolumeHeader). t.geometry.hidden_volume_size) e;
  at_36 = ap (λ (t : VolumeHeader). t.geometry.volume_size) e;
  at_44 = ap (λ (t : VolumeHeader). t.geometry.encrypted_area_start) e;
  at_52 = ap (λ (t : VolumeHeader). t.geometry.encrypted_area_size) e;
  at_60 = ap (λ (t : VolumeHeader). t.flags) e;
  at_64 = ap (λ (t : VolumeHeader). t.geometry.sector_size) e;
  at_192 = ap (λ (t : VolumeHeader). t.master_keys) e;
  where_found = ap (λ (t : VolumeHeader). t.position) e;
}

of_values :
    (d : List ℕ) (pos : HeaderPosition) (h : VolumeHeader) → HasValues d pos h → header_of d pos ≡ h
unfolding header_of
of_values d pos h v = λ i. record {
  header_version = v.at_4 i;
  min_program_version = v.at_6 i;
  flags = v.at_60 i;
  geometry = record {
    volume_size = v.at_36 i;
    encrypted_area_start = v.at_44 i;
    encrypted_area_size = v.at_52 i;
    sector_size = v.at_64 i;
    hidden_volume_size = v.at_28 i;
  };
  position = v.where_found i;
  master_keys = v.at_192 i;
}

module _ (crc32 : List ℕ → ℕ) where
  -- A well-formed header: magic, both checksums, versions, flags and sector size.
  pub record IsHeader (d : List ℕ) : Type 0 where
    pub magic : slice 0 4 d ≡ header_magic
    pub fields_crc : crc32 (take 188 d) ≡ be32_at d 188
    pub keys_crc : crc32 (slice 192 256 d) ≡ be32_at d 8
    pub version : 5 ≤ be16_at d 4
    pub program : be16_at d 6 ≤ 0x010b
    pub no_system : bit_and (be32_at d 60) 1 ≡ 0
    pub sector : (be32_at d 64 ≡ 512) ⊎ (be32_at d 64 ≡ 4096)

  -- A region parses exactly when it is a well-formed header, and then to the header whose values stand
  -- at the published offsets, as big-endian numbers.
  pub parse_decrypted_header-ok_iff :
      (d : List ℕ) (pos : HeaderPosition) (h : VolumeHeader)
      → (parse_decrypted_header crc32 d pos ≡ ok h) ↔ (IsHeader d × HasValues d pos h)
  unfolding parse_decrypted_header
  parse_decrypted_header-ok_iff d pos h = (
    λ e0.
        let (magic, e1) = guard_ok _ _ _ e0 in
        let (fields, e2) = guard_ok _ _ _ e1 in
        let (keys, e3) = guard_ok _ _ _ e2 in
        let (version, e4) = guard_ok _ _ _ e3 in
        let (program, e5) = guard_ok _ _ _ e4 in
        let (flag, e6) = guard_ok _ _ _ e5 in
        let (sector, e7) = guard_ok _ _ _ e6 in
        (
          record {
            magic = (bytes_eq_iff _ _).0 magic;
            fields_crc = (==_iff _ _).0 fields;
            keys_crc = (==_iff _ _).0 keys;
            version = (not-ltb_iff _ _).0 version;
            program = (not-ltb_iff _ _).0 program;
            no_system = (==_iff _ _).0 flag;
            sector = (sector_sizes_iff _).0 sector;
          },
          values_of d pos h (ok_injective e7),
        ),
    λ (v, e). guard_pass _ _ _ ((bytes_eq_iff _ _).1 v.magic) (
        guard_pass _ _ _ ((==_iff _ _).1 v.fields_crc) (
          guard_pass _ _ _ ((==_iff _ _).1 v.keys_crc) (
            guard_pass _ _ _ ((not-ltb_iff _ _).1 v.version) (
              guard_pass _ _ _ ((not-ltb_iff _ _).1 v.program) (
                guard_pass _ _ _ ((==_iff _ _).1 v.no_system) (
                  guard_pass _ _ _ ((sector_sizes_iff _).1 v.sector)
                    (ap ok (of_values d pos h e)))))))),
  )

  -- The answer is "wrong password" exactly when the magic is missing: damage behind a matching
  -- magic is never reported as a wrong password, and a missing magic never as damage.
  pub parse_decrypted_header-wrong_password_iff :
      (d : List ℕ) (pos : HeaderPosition)
      → (parse_decrypted_header crc32 d pos ≡ err not_found_or_wrong_password)
        ↔ (slice 0 4 d ≢ header_magic)
  unfolding parse_decrypted_header
  parse_decrypted_header-wrong_password_iff d pos = (
    λ e. ground (arith, bytes_eq_iff (slice 0 4 d) header_magic),
    λ e. ground (arith, bytes_eq_iff (slice 0 4 d) header_magic),
  )

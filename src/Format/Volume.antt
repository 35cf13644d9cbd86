-- ===== src/Format/Volume.antt =====
-- core/vc-format/src/create.rs: writing the headers of a new volume, and of a hidden volume in an
-- existing container. The random source of the operating system is a parameter. Wiping the plaintext
-- copies is not modelled.
pub mod Steps
pub mod Opening
pub mod Create
pub mod Hidden
use vault_pony_core.Prelude.{
  ℕ, ◌+◌, ◌-◌, ◌*◌, ◌%◌, Bool, not, ◌||◌, ◌&&◌, Option, none, some, List, [], ◌∷◌, ◌++◌, ltb, ◌==◌,
}
use vault_pony_core.Prelude.Words.{add64, sub64}
use vault_pony_core.Prelude.Bytes.{contains}
use vault_pony_core.Types.Consts.{
  salt_len, header_region_len, master_key_area_len, sector_sizes, primary_header_offset,
  hidden_header_offset, backup_standard_from_end, backup_hidden_from_end,
}
use vault_pony_core.Types.Error.{VcResult, ok, err, M, pure, lift, guard_M, internal, ◌>>=◌, ◌>>◌}
use vault_pony_core.Types.Registry.{EncryptionScheme, key_bytes, Prf, iterations_for_pim}
use vault_pony_core.Device.{BlockDevice}
use vault_pony_core.Crypto.Primitives.{Primitives}
use vault_pony_core.Crypto.Xts
use vault_pony_core.Crypto.Xts.{encrypt_header}
use vault_pony_core.Crypto.Kdf.{derive_header_key, as_bytes}
use vault_pony_core.Crypto.Keyfile.{apply_keyfiles}
use vault_pony_core.Format.Create.{build_header}

pub record CreateParams : Type 0 where
  pub scheme : EncryptionScheme
  pub prf : Prf
  pub pim : ℕ
  pub passphrase : List ℕ
  pub keyfiles : List (List ℕ)
  pub size : ℕ
  pub sector_size : ℕ

-- `getrandom`: that many bytes, or a failure.
pub record Rng : Type 1 where
  pub State : Type 0
  pub getrandom : ℕ → State → Option (List ℕ) × State

-- The container and the random source.
pub record World (D R : Type 0) : Type 0 where
  pub dev : D
  pub rng : R

abbrev pub on_device : {D R A : Type 0} → M D A → M (World D R) A
on_device m w = let (r, s) = m w.dev in (r, record w { dev = s })

abbrev random_or : Option (List ℕ) → VcResult (List ℕ)
random_or none = err (internal "rng")
random_or (some b) = ok b

module _ (c : Primitives) (d : BlockDevice) (r : Rng) where
  abbrev pub W : Type 0
  W = World d.State r.State

  pub fill_random : ℕ → M W (List ℕ)
  fill_random n w = let (b, s) = r.getrandom n w.rng in (random_or b, record w { rng = s })

  -- Salt and ciphertext fill the region exactly.
  pub write_header_copy : ℕ → List ℕ → CreateParams → M W (Unit {0})
  unfolding fill_random
  write_header_copy offset plaintext params = do
    salt ← fill_random salt_len
    let secret = apply_keyfiles params.passphrase params.keyfiles
    let iterations = iterations_for_pim params.prf params.pim
    key ←
        lift
          (derive_header_key c.kdf params.prf.name secret salt iterations (key_bytes params.scheme))
    xts ← lift (Xts.new params.scheme (as_bytes key))
    on_device (d.write_at offset (salt ++ encrypt_header c.mode xts plaintext))

  -- `for off in [...] { fill_random(&mut rnd)?; dev.write_at(off, &rnd)?; }`
  pub fill_regions : List ℕ → M W (Unit {0})
  unfolding fill_random
  fill_regions [] = pure tt
  fill_regions (off ∷ offs) = do
    rnd ← fill_random header_region_len
    on_device (d.write_at off rnd)
    fill_regions offs

  unfoldable pub create_volume : CreateParams → M W (ℕ × ℕ)
  unfolding fill_random fill_regions write_header_copy
  create_volume params = do
    guard_M (contains sector_sizes params.sector_size) (internal "unsupported sector size")
    let front_back = 2 * backup_standard_from_end
    guard_M (not (ltb params.size (front_back + 512))) (internal "container too small")
    let data_area_start = backup_standard_from_end
    let data_area_size = params.size - front_back
    master_key_area ← fill_random master_key_area_len
    let header =
        build_header c.crc32 data_area_start data_area_size 0 params.sector_size master_key_area
    fill_regions (
        primary_header_offset
        ∷ hidden_header_offset
        ∷ (params.size - backup_standard_from_end)
        ∷ (params.size - backup_hidden_from_end)
        ∷ [])
    write_header_copy primary_header_offset header params
    write_header_copy (params.size - backup_standard_from_end) header params
    on_device d.flush
    pure (data_area_start, data_area_size)

  -- The subtractions from the size and the sum in the test are 64-bit and wrap.
  unfoldable pub create_hidden : CreateParams → ℕ → M W (ℕ × ℕ)
  unfolding fill_random write_header_copy
  create_hidden params hidden_data_size = do
    guard_M (contains sector_sizes params.sector_size) (internal "unsupported sector size")
    let hidden_end = sub64 params.size (2 * backup_standard_from_end)
    guard_M
        (not (
          ltb hidden_data_size params.sector_size
          || not (hidden_data_size % params.sector_size == 0)
          || ltb hidden_end (add64 hidden_data_size backup_standard_from_end)))
        (internal "invalid hidden volume size")
    let data_area_start = sub64 hidden_end hidden_data_size
    master_key_area ← fill_random master_key_area_len
    let header =
        build_header c.crc32 data_area_start hidden_data_size hidden_data_size params.sector_size
          master_key_area
    write_header_copy hidden_header_offset header params
    write_header_copy (sub64 params.size backup_hidden_from_end) header params
    on_device d.flush
    pure (data_area_start, hidden_data_size)

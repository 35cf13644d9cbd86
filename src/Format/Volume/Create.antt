-- ===== src/Format/Volume/Create.antt =====
-- `create_volume` of core/vc-format/src/create.rs: what a new container holds.
use vault_pony_core.Prelude.{
  ℕ, ◌+◌, ◌-◌, ◌*◌, ◌^◌, ◌<◌, ◌≤◌, ◌≡◌, refl, ap, ◌∙◌, ◌⊎◌, inl, inr, true, List, [], ◌∷◌, length,
  arith,
}
use vault_pony_core.Prelude.Slices.{
  slice, splice, length-splice, slice-splice_self, slice-splice_apart,
}
use vault_pony_core.Prelude.Bytes.{contains}
use vault_pony_core.Types.Consts.{
  salt_len, master_key_area_len, sector_sizes, backup_standard_from_end,
}
use vault_pony_core.Types.Error.{ok}
use vault_pony_core.Types.Header.{HeaderPosition, primary, backup_primary}
use vault_pony_core.Types.Registry.{key_bytes}
use vault_pony_core.Device.{BlockDevice}
use vault_pony_core.Device.Store.{IsStore}
use vault_pony_core.Device.Runs.{Runs, Runs-lift, Runs-bind, Runs-then, Runs-guard, Runs-flush}
use vault_pony_core.Crypto.Primitives.{Primitives}
use vault_pony_core.Crypto.Xts.RoundTrip.{IsXts}
use vault_pony_core.Crypto.Kdf.{max_header_key}
use vault_pony_core.Crypto.Kdf.Laws.{DerivesPrefixes}
use vault_pony_core.Format.Create.{build_header}
use vault_pony_core.Format.Create.RoundTrip.{
  expected, parse_decrypted_header-build_header, length-build_header,
}
use vault_pony_core.Format.Search.Bytes.{slot_at}
use vault_pony_core.Format.Volume.{
  CreateParams, Rng, W, on_device, fill_random, write_header_copy, fill_regions, create_volume,
}
use vault_pony_core.Format.Volume.Steps.{
  IsRandom, IsCopy, Holds, Runs-on_device, Runs-random, Runs-IsCopy, Runs-fill,
}
use vault_pony_core.Format.Volume.Opening.{SlotOpens, copy-SlotOpens}

-- What a call of `create_volume` with these master keys leaves, and how it opens.
pub record IsCreated (c : Primitives) (params : CreateParams) (n : ℕ) (keys xs ys : List ℕ)
    : Type 0 where
  pub same_length : length ys ≡ length xs
  pub primary_opens :
      SlotOpens c params n
        (slot_at primary 0 ys)
        (expected c.crc32 131_072 (params.size - 262_144) 0 params.sector_size keys primary)
  pub backup_opens :
      SlotOpens c params n
        (slot_at backup_primary (params.size - 131_072) ys)
        (expected c.crc32 131_072 (params.size - 262_144) 0 params.sector_size keys backup_primary)
  pub data_kept :
      slice 131_072 (params.size - 262_144) ys ≡ slice 131_072 (params.size - 262_144) xs

module _ (c : Primitives) (d : BlockDevice) (store : IsStore d) (r : Rng) (random : IsRandom r)
    (laws : IsXts c.mode) (word : (bs : List ℕ) → c.crc32 bs < 2 ^ 32) (params : CreateParams)
    (derives : DerivesPrefixes c.kdf params.prf) where
  abbrev H : List ℕ × r.State → W c d r → Type 0
  H = Holds c d store r random

  sector_ok :
      (params.sector_size ≡ 512) ⊎ (params.sector_size ≡ 4096)
      → contains sector_sizes params.sector_size ≡ true
  sector_ok (inl e) = rw e refl
  sector_ok (inr e) = rw e refl

  -- Two copies of the header, over a container that was filled outside its data area.
  created :
      (n : ℕ) (xs filled front back keys : List ℕ)
      → length xs ≡ params.size
      → (params.sector_size ≡ 512) ⊎ (params.sector_size ≡ 4096)
      → 262_656 ≤ params.size
      → params.size < 2 ^ 64
      → length keys ≡ 256
      → length filled ≡ length xs
      → slice 131_072 (params.size - 262_144) filled ≡ slice 131_072 (params.size - 262_144) xs
      → IsCopy c d store r random laws params derives
          (build_header c.crc32 131_072 (params.size - 262_144) 0 params.sector_size keys)
          front
      → IsCopy c d store r random laws params derives
          (build_header c.crc32 131_072 (params.size - 262_144) 0 params.sector_size keys)
          back
      → key_bytes params.scheme ≤ n
      → n ≤ max_header_key
      → IsCreated c params n keys xs (splice (params.size - 131_072) back (splice 0 front filled))
  created n xs filled front back keys whole sector room small length-keys same kept front_copy
        back_copy long fits =
      record {
        same_length = length-end ∙ length-once ∙ same;
        primary_opens = opens primary 0 front front_copy (
            slice-splice_apart 0 512 (params.size - 131_072) back once
              (omega (arith, same, length-once, length-back)) (inr (omega arith))
            ∙ slice-splice_self 0 512 front filled (omega (arith, same)) length-front);
        backup_opens = opens backup_primary (params.size - 131_072) back back_copy (
            slice-splice_self (params.size - 131_072) 512 back once
              (omega (arith, same, length-once)) length-back);
        data_kept =
            slice-splice_apart 131_072 (params.size - 262_144) (params.size - 131_072) back once
              (omega (arith, same, length-once, length-back)) (inr (omega arith))
            ∙ slice-splice_apart 131_072 (params.size - 262_144) 0 front filled
                (omega (arith, same, length-front)) (inl (omega (arith, length-front)))
            ∙ kept;
      }
    where
      header : List ℕ
      header = build_header c.crc32 131_072 (params.size - 262_144) 0 params.sector_size keys

      size : length header ≡ 448
      size =
          length-build_header c.crc32 131_072 (params.size - 262_144) 0 params.sector_size keys
            length-keys

      once : List ℕ
      once = splice 0 front filled

      length-front : length front ≡ 512
      length-front = omega (arith, front_copy.length-region, size)

      length-back : length back ≡ 512
      length-back = omega (arith, back_copy.length-region, size)

      length-once : length once ≡ length filled
      length-once = length-splice 0 front filled (omega (arith, same, length-front))

      length-end : length (splice (params.size - 131_072) back once) ≡ length once
      length-end =
          length-splice (params.size - 131_072) back once
            (omega (arith, same, length-once, length-back))

      opens :
          (pos : HeaderPosition) (off : ℕ) (region : List ℕ)
          → IsCopy c d store r random laws params derives header region
          → slice off 512 (splice (params.size - 131_072) back once) ≡ region
          → SlotOpens c params n
              (slot_at pos off (splice (params.size - 131_072) back once))
              (expected c.crc32 131_072 (params.size - 262_144) 0 params.sector_size keys pos)
      opens pos off region copy at =
          copy-SlotOpens c d store r random laws params derives off
            (splice (params.size - 131_072) back once) header region pos _ size copy at
            (parse_decrypted_header-build_header c.crc32 131_072 (params.size - 262_144) 0
              params.sector_size keys pos word (omega arith) (omega arith) (omega arith) sector
              length-keys)
            n long fits

  abbrev header_for : r.State → List ℕ
  header_for t =
      build_header c.crc32 backup_standard_from_end (params.size - 2 * backup_standard_from_end) 0
        params.sector_size (random.bytes master_key_area_len t)

  abbrev regions : List ℕ
  regions = 0 ∷ 65_536 ∷ (params.size - 131_072) ∷ (params.size - 65_536) ∷ []

  -- The call, from its parts.
  Runs-create :
      (xs filled once end : List ℕ) (t u v w : r.State)
      → (params.sector_size ≡ 512) ⊎ (params.sector_size ≡ 4096)
      → 262_656 ≤ params.size
      → Runs H
          (fill_regions c d r regions)
          (xs, random.rest master_key_area_len t)
          (ok tt)
          (filled, u)
      → Runs H (write_header_copy c d r 0 (header_for t) params) (filled, u) (ok tt) (once, v)
      → Runs H
          (write_header_copy c d r (params.size - 131_072) (header_for t) params)
          (once, v)
          (ok tt)
          (end, w)
      → Runs H (create_volume c d r params) (xs, t) (ok (131_072, params.size - 262_144)) (end, w)
  unfolding create_volume
  Runs-create xs filled once end t u v w sector room fill run_front run_back =
      Runs-guard H _ _ _ (sector_ok sector) (
        Runs-guard H _ _ _ (ground arith) (
          Runs-bind H (fill_random c d r master_key_area_len) _
            (Runs-random c d store r random master_key_area_len xs t)
            (Runs-then H (fill_regions c d r regions) _ fill (
              Runs-then H (write_header_copy c d r 0 (header_for t) params) _ run_front (
                Runs-then H (write_header_copy c d r (params.size - 131_072) (header_for t) params)
                  _ run_back
                  (Runs-then H (on_device d.flush) _
                    (Runs-on_device c d store r random d.flush w (Runs-flush d store end))
                    (Runs-lift H (ok (131_072, params.size - 262_144)) (end, w))))))))

  -- On a container of the size given, at least 262656 bytes and a 64-bit number, with one of the two
  -- sector sizes: `create_volume` succeeds and answers that the data area starts at 131072 and is
  -- 262144 bytes shorter than the container. The container then keeps its length; the primary header
  -- at offset 0 and its backup 131072 bytes before the end both open under the secret and the PIM, by
  -- the PRF and scheme chosen and any length of derivation up to 192 bytes that suffices for it, with
  -- exactly the same geometry and the same master keys: the first 256 bytes that the random source
  -- gives. No byte of the data area has been written. The container stores bytes, the random source
  -- does not fail, XTS decryption undoes encryption, a CRC is a 32-bit number, and the PRF derives
  -- keys of up to 192 bytes of which shorter ones are prefixes.
  pub create_volume_lem :
      (n : ℕ) (xs : List ℕ) (t : r.State) (w : W c d r)
      → length xs ≡ params.size
      → (params.sector_size ≡ 512) ⊎ (params.sector_size ≡ 4096)
      → 262_656 ≤ params.size
      → params.size < 2 ^ 64
      → key_bytes params.scheme ≤ n
      → n ≤ max_header_key
      → H (xs, t) w
      → (ys : List ℕ) × (u : r.State) × IsCreated c params n
          (random.bytes master_key_area_len t)
          xs
          ys
        × (((create_volume c d r params w).0 ≡ ok (131_072, params.size - 262_144))
            × H (ys, u) (create_volume c d r params w).1)
  create_volume_lem n xs t w whole sector room small long fits holds =
      let keys : List ℕ = random.bytes master_key_area_len t in
      let length-keys : length keys ≡ 256 = random.length-bytes master_key_area_len t in
      let header : List ℕ =
        build_header c.crc32 131_072 (params.size - 262_144) 0 params.sector_size keys in
      let size : length header ≡ 448 =
        length-build_header c.crc32 131_072 (params.size - 262_144) 0 params.sector_size keys
          length-keys in
      let (filled, u, same, keeps, fill) =
        Runs-fill c d store r random
          (0 ∷ 65_536 ∷ (params.size - 131_072) ∷ (params.size - 65_536) ∷ []) xs
          (random.rest master_key_area_len t)
          (omega arith, (omega arith, (omega arith, (omega arith, tt)))) in
      let (front, front_copy, run_front) =
        Runs-IsCopy c d store r random laws params derives 0 header filled u (omega arith)
          (omega (arith, same, size)) in
      let once : List ℕ = splice 0 front filled in
      let length-front : length front ≡ 512 = front_copy.length-region ∙ ap (◌+◌ 64) size in
      let length-once : length once ≡ length filled =
        length-splice 0 front filled (omega (arith, same, length-front)) in
      let (back, back_copy, run_back) =
        Runs-IsCopy c d store r random laws params derives (params.size - 131_072) header once
          (random.rest salt_len u) (omega arith) (omega (arith, same, size, length-once)) in
      let length-back : length back ≡ 512 = back_copy.length-region ∙ ap (◌+◌ 64) size in
      let end : List ℕ = splice (params.size - 131_072) back once in
      (
        end,
        random.rest salt_len (random.rest salt_len u),
        created n xs filled front back keys whole sector room small length-keys same
            (keeps 131_072 (params.size - 262_144) (
              inl (omega arith),
              (inl (omega arith), (inr (omega arith), (inr (omega arith), tt))),
            ))
            front_copy back_copy long fits,
        Runs-create xs filled once end t u (random.rest salt_len u)
            (random.rest salt_len (random.rest salt_len u)) sector room fill run_front run_back w
            holds,
      )

-- ===== src/Format/Volume/Hidden.antt =====
-- `create_hidden` of core/vc-format/src/create.rs: what it adds to a container, and what it leaves.
use vault_pony_core.Prelude.{
  ◌%◌, ◌||◌, ◌==◌, ==_iff, Bool, false, not, ltb, ℕ, ◌+◌, ◌-◌, ◌^◌, ◌<◌, ◌≤◌, ◌≡◌, refl, ◌∙◌, ◌⊎◌,
  inl, inr, true, List, length, arith,
}
use vault_pony_core.Prelude.Words.{add64, sub64}
use vault_pony_core.Prelude.Slices.{
  slice, splice, length-splice, slice-splice_self, slice-splice_apart,
}
use vault_pony_core.Prelude.Bytes.{contains}
use vault_pony_core.Types.Consts.{
  salt_len, master_key_area_len, sector_sizes, backup_standard_from_end,
}
use vault_pony_core.Types.Error.{ok}
use vault_pony_core.Types.Header.{HeaderPosition, hidden, backup_hidden}
use vault_pony_core.Types.Registry.{key_bytes}
use vault_pony_core.Device.{BlockDevice}
use vault_pony_core.Device.Store.{IsStore}
use vault_pony_core.Device.Runs.{Runs, Runs-lift, Runs-bind, Runs-then, Runs-guard, Runs-flush}
use vault_pony_core.Crypto.Primitives.{Primitives}
use vault_pony_core.Crypto.Xts.RoundTrip.{IsXts}
use vault_pony_core.Crypto.Kdf.{max_header_key}
use vault_pony_core.Crypto.Kdf.Laws.{DerivesPrefixes}
use vault_pony_core.Format.Create.{build_header}
use vault_pony_core.Format.Create.RoundTrip.{
  expected, parse_decrypted_header-build_header, length-build_header,
}
use vault_pony_core.Format.Search.Bytes.{slot_at}
use vault_pony_core.Format.Volume.{
  CreateParams, Rng, W, on_device, fill_random, write_header_copy, create_hidden,
}
use vault_pony_core.Format.Volume.Steps.{
  IsRandom, IsCopy, Holds, Runs-on_device, Runs-random, Runs-IsCopy,
}
use vault_pony_core.Format.Volume.Opening.{SlotOpens, copy-SlotOpens}

-- What a call of `create_hidden` with these master keys leaves, and how it opens.
pub record IsHiddenCreated (c : Primitives) (params : CreateParams) (size n : ℕ)
    (keys xs ys : List ℕ) : Type 0 where
  pub same_length : length ys ≡ length xs
  pub hidden_opens :
      SlotOpens c params n
        (slot_at hidden 65_536 ys)
        (expected c.crc32 (params.size - 262_144 - size) size size params.sector_size keys hidden)
  pub backup_opens : SlotOpens c params n (slot_at backup_hidden (params.size - 65_536) ys) (
      expected c.crc32
        (params.size - 262_144 - size)
        size
        size
        params.sector_size
        keys
        backup_hidden)
  pub front_kept : slice 0 65_536 ys ≡ slice 0 65_536 xs
  pub rest_kept : slice 66_048 (params.size - 131_584) ys ≡ slice 66_048 (params.size - 131_584) xs

module _ (c : Primitives) (d : BlockDevice) (store : IsStore d) (r : Rng) (random : IsRandom r)
    (laws : IsXts c.mode) (word : (bs : List ℕ) → c.crc32 bs < 2 ^ 32) (params : CreateParams)
    (derives : DerivesPrefixes c.kdf params.prf) (size : ℕ) where
  abbrev H : List ℕ × r.State → W c d r → Type 0
  H = Holds c d store r random

  -- The size of the hidden volume fits: whole sectors, and room behind the outer header area.
  pub record SizeFits : Type 0 where
    pub sector : (params.sector_size ≡ 512) ⊎ (params.sector_size ≡ 4096)
    pub some_sector : params.sector_size ≤ size
    pub whole : size % params.sector_size ≡ 0
    pub room : 131_072 + size + 262_144 ≤ params.size
    pub small : params.size < 2 ^ 64

  sector_ok : SizeFits → contains sector_sizes params.sector_size ≡ true
  sector_ok f = ground (arith, f.sector)

  abbrev refused : ℕ → Bool
  refused end =
      ltb size params.sector_size
      || not (size % params.sector_size == 0)
      || ltb end (add64 size backup_standard_from_end)

  size_ok : SizeFits → not (refused (sub64 params.size 262_144)) ≡ true
  size_ok f =
      let long : ltb size params.sector_size ≡ false = ground (arith, f.some_sector) in
      let even : (size % params.sector_size == 0) ≡ true = (==_iff _ _).1 f.whole in
      let inside : ltb (sub64 params.size 262_144) (add64 size backup_standard_from_end) ≡ false =
        ground (arith, f.room, f.small) in
      rw (long, even, inside) refl

  start_ok : SizeFits → sub64 (sub64 params.size 262_144) size ≡ params.size - 262_144 - size
  start_ok f = omega (arith, f.room, f.small)

  backup_ok : SizeFits → sub64 params.size 65_536 ≡ params.size - 65_536
  backup_ok f = omega (arith, f.room, f.small)

  abbrev header_for : List ℕ → List ℕ
  header_for keys =
      build_header c.crc32 (params.size - 262_144 - size) size size params.sector_size keys

  -- Two copies of the header, and nothing else.
  created :
      (n : ℕ) (xs front back keys : List ℕ)
      → length xs ≡ params.size
      → SizeFits
      → length keys ≡ 256
      → IsCopy c d store r random laws params derives (header_for keys) front
      → IsCopy c d store r random laws params derives (header_for keys) back
      → key_bytes params.scheme ≤ n
      → n ≤ max_header_key
      → IsHiddenCreated c params size n keys xs
          (splice (params.size - 65_536) back (splice 65_536 front xs))
  created n xs front back keys is f length-keys front_copy back_copy long fits = record {
    same_length =
        length-splice (params.size - 65_536) back once
          (omega (arith, is, length-once, length-back, f.room))
        ∙ length-once;
    hidden_opens = opens hidden 65_536 front front_copy (
        slice-splice_apart 65_536 512 (params.size - 65_536) back once
          (omega (arith, is, length-once, length-back, f.room)) (inr (omega (arith, f.room)))
        ∙ slice-splice_self 65_536 512 front xs (omega (arith, is, f.room)) length-front);
    backup_opens = opens backup_hidden (params.size - 65_536) back back_copy (
        slice-splice_self (params.size - 65_536) 512 back once
          (omega (arith, is, length-once, f.room)) length-back);
    front_kept = kept 0 65_536 (omega (arith, f.room)) (inr (omega arith));
    rest_kept = kept 66_048 (params.size - 131_584) (omega (arith, f.room)) (inl (omega arith));
  }
    where
      length-header : length (header_for keys) ≡ 448
      length-header =
          length-build_header c.crc32 (params.size - 262_144 - size) size size params.sector_size
            keys length-keys

      once : List ℕ
      once = splice 65_536 front xs

      length-front : length front ≡ 512
      length-front = omega (arith, front_copy.length-region, length-header)

      length-back : length back ≡ 512
      length-back = omega (arith, back_copy.length-region, length-header)

      length-once : length once ≡ length xs
      length-once = length-splice 65_536 front xs (omega (arith, is, length-front, f.room))

      kept :
          (off k : ℕ)
          → off + k ≤ params.size - 65_536
          → (66_048 ≤ off) ⊎ (off + k ≤ 65_536)
          → slice off k (splice (params.size - 65_536) back once) ≡ slice off k xs
      kept off k before apart =
          slice-splice_apart off k (params.size - 65_536) back once
            (omega (arith, is, length-once, length-back, f.room)) (inr before)
          ∙ slice-splice_apart off k 65_536 front xs (omega (arith, is, length-front, f.room))
              (elim apart [ inl a ↦ inl (omega (arith, length-front)) | inr a ↦ inr a ])

      opens :
          (pos : HeaderPosition) (off : ℕ) (part : List ℕ)
          → IsCopy c d store r random laws params derives (header_for keys) part
          → slice off 512 (splice (params.size - 65_536) back once) ≡ part
          → SlotOpens c params n (slot_at pos off (splice (params.size - 65_536) back once)) (
              expected c.crc32 (params.size - 262_144 - size) size size params.sector_size keys pos)
      opens pos off part copy at =
          copy-SlotOpens c d store r random laws params derives off
            (splice (params.size - 65_536) back once) (header_for keys) part pos _ length-header
            copy at
            (parse_decrypted_header-build_header c.crc32 (params.size - 262_144 - size) size size
              params.sector_size keys pos word (omega (arith, f.small))
              (omega (arith, f.small, f.room)) (omega (arith, f.small, f.room)) f.sector
              length-keys)
            n long fits

  -- The call, from its parts.
  Runs-create :
      (xs once end : List ℕ) (t u v : r.State)
      → SizeFits
      → Runs H
          (write_header_copy c d r 65_536 (header_for (random.bytes master_key_area_len t)) params)
          (xs, random.rest master_key_area_len t)
          (ok tt)
          (once, u)
      → Runs H
          (write_header_copy c d r
            (params.size - 65_536)
            (header_for (random.bytes master_key_area_len t))
            params)
          (once, u)
          (ok tt)
          (end, v)
      → Runs H
          (create_hidden c d r params size)
          (xs, t)
          (ok (params.size - 262_144 - size, size))
          (end, v)
  unfolding create_hidden
  Runs-create xs once end t u v f run_front run_back = Runs-guard H _ _ _ (sector_ok f) (
      Runs-guard H _ _ _ (size_ok f) (
        rw (start_ok f, backup_ok f)
          (Runs-bind H (fill_random c d r master_key_area_len) _
            (Runs-random c d store r random master_key_area_len xs t)
            (Runs-then H
              (write_header_copy c d r 65_536 (header_for (random.bytes master_key_area_len t))
                params)
              _ run_front
              (Runs-then H
                (write_header_copy c d r (params.size - 65_536)
                  (header_for (random.bytes master_key_area_len t)) params)
                _ run_back
                (Runs-then H (on_device d.flush) _
                  (Runs-on_device c d store r random d.flush v (Runs-flush d store end))
                  (Runs-lift H (ok (params.size - 262_144 - size, size)) (end, v))))))))

  -- With a hidden size of whole sectors that fits between the outer header area and the backups, on
  -- a container of the size given: `create_hidden` succeeds, and answers an area that ends 262144
  -- bytes before the container's end and has the size asked for, so that it begins behind the outer
  -- headers. Both copies of the hidden header, at offset 65536 and 65536 bytes before the end, open
  -- under the secret and the PIM, by the PRF and scheme chosen and any length of derivation up to 192
  -- bytes that suffices for it, with exactly that geometry and the same master keys: the first 256
  -- bytes that the random source gives. Outside these two regions of 512 bytes nothing before the
  -- second has been written: the outer primary header, the outer data and the outer backup header are
  -- as before. The container stores bytes, the random source does not fail, XTS decryption undoes
  -- encryption, a CRC is a 32-bit number, and the PRF derives keys of up to 192 bytes of which shorter
  -- ones are prefixes.
  pub create_hidden_lem :
      (n : ℕ) (xs : List ℕ) (t : r.State) (w : W c d r)
      → length xs ≡ params.size
      → SizeFits
      → key_bytes params.scheme ≤ n
      → n ≤ max_header_key
      → H (xs, t) w
      → (ys : List ℕ) × (u : r.State) × IsHiddenCreated c params size n
          (random.bytes master_key_area_len t)
          xs
          ys
        × (((create_hidden c d r params size w).0 ≡ ok (params.size - 262_144 - size, size))
            × H (ys, u) (create_hidden c d r params size w).1)
  create_hidden_lem n xs t w is f long fits holds =
      let keys : List ℕ = random.bytes master_key_area_len t in
      let length-keys : length keys ≡ 256 = random.length-bytes master_key_area_len t in
      let length-header : length (header_for keys) ≡ 448 =
        length-build_header c.crc32 (params.size - 262_144 - size) size size params.sector_size keys
          length-keys in
      let (front, front_copy, run_front) =
        Runs-IsCopy c d store r random laws params derives 65_536 (header_for keys) xs
          (random.rest master_key_area_len t) (omega arith)
          (omega (arith, is, length-header, f.room)) in
      let once : List ℕ = splice 65_536 front xs in
      let length-once : length once ≡ length xs =
        length-splice 65_536 front xs
          (omega (arith, is, front_copy.length-region, length-header, f.room)) in
      let (back, back_copy, run_back) =
        Runs-IsCopy c d store r random laws params derives (params.size - 65_536) (header_for keys)
          once (random.rest salt_len (random.rest master_key_area_len t)) (omega arith)
          (omega (arith, is, length-once, length-header, f.room)) in
      let end : List ℕ = splice (params.size - 65_536) back once in
      let last : r.State =
        random.rest salt_len (random.rest salt_len (random.rest master_key_area_len t)) in
      (
        end,
        last,
        created n xs front back keys is f length-keys front_copy back_copy long fits,
        Runs-create xs once end t (random.rest salt_len (random.rest master_key_area_len t)) last f
            run_front run_back w holds,
      )

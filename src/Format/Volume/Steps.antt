-- ===== src/Format/Volume/Steps.antt =====
-- Runs of the calls of core/vc-format/src/create.rs on a container that stores bytes, with a random
-- source that does not fail.
use vault_pony_core.Prelude.{
  ℕ, ◌+◌, ◌≤◌, ◌≡◌, refl, ap, ◌∙◌, ◌⊎◌, inl, inr, some, List, [], ◌∷◌, ◌++◌, length, length-append,
  All, arith,
}
use vault_pony_core.Prelude.Slices.{slice, splice, length-splice, slice-splice_apart}
use vault_pony_core.Types.Consts.{salt_len, header_region_len}
use vault_pony_core.Types.Error.{VcResult, ok, M}
use vault_pony_core.Types.Registry.{key_bytes, iterations_for_pim}
use vault_pony_core.Device.{BlockDevice}
use vault_pony_core.Device.Store.{IsStore}
use vault_pony_core.Device.Runs.{Stored, Runs, Runs-value, Runs-lift, Runs-bind, Runs-write}
use vault_pony_core.Crypto.Primitives.{Primitives}
use vault_pony_core.Crypto.Xts
use vault_pony_core.Crypto.Xts.{SchemeXts, encrypt_header}
use vault_pony_core.Crypto.Xts.RoundTrip.{IsXts, length-encrypt_header}
use vault_pony_core.Crypto.Xts.Keys.{new_ok}
use vault_pony_core.Crypto.Kdf.{HeaderKey, as_bytes, max_header_key, derive_header_key}
use vault_pony_core.Crypto.Kdf.Laws.{DerivesPrefixes}
use vault_pony_core.Crypto.Keyfile.{apply_keyfiles}
use vault_pony_core.Format.Volume.{
  CreateParams, Rng, W, on_device, random_or, fill_random, write_header_copy, fill_regions,
}

-- A random source that does not fail: `next n` bytes, and the state after them.
pub record IsRandom (r : Rng) : Type 0 where
  pub bytes : ℕ → r.State → List ℕ
  pub rest : ℕ → r.State → r.State
  pub drawn : (n : ℕ) (t : r.State) → r.getrandom n t ≡ (some (bytes n t), rest n t)
  pub length-bytes : (n : ℕ) (t : r.State) → length (bytes n t) ≡ n

module _ (c : Primitives) (d : BlockDevice) (store : IsStore d) (r : Rng)
    (random : IsRandom r) where
  -- A world whose container stores these bytes and whose random source is in this state.
  abbrev pub Holds : List ℕ × r.State → W c d r → Type 0
  Holds (xs, t) w = Stored d store xs w.dev × (w.rng ≡ t)

  pub Runs-on_device :
      {A : Type 0} (m : M d.State A) {xs ys : List ℕ} {a : VcResult A} (t : r.State)
      → Runs (Stored d store) m xs a ys
      → Runs Holds (on_device m) (xs, t) a (ys, t)
  Runs-on_device m t run w (p, e) = let (value, q) = run w.dev p in (value, (q, e))

  pub Runs-random :
      (n : ℕ) (xs : List ℕ) (t : r.State)
      → Runs Holds (fill_random c d r n) (xs, t) (ok (random.bytes n t)) (xs, random.rest n t)
  unfolding fill_random
  Runs-random n xs t w (p, e) =
      let drawn : r.getrandom n w.rng ≡ (some (random.bytes n t), random.rest n t) =
        ap (r.getrandom n) e ∙ random.drawn n t in
      (ap (λ z. random_or z.0) drawn, (p, ap (λ z. z.1) drawn))

  module _ (laws : IsXts c.mode) (params : CreateParams)
      (derives : DerivesPrefixes c.kdf params.prf) where
    -- A copy of a header: a salt, and the header encrypted under the key of the password and the
    -- salt.
    pub record IsCopy (header region : List ℕ) : Type 0 where
      pub salt : List ℕ
      pub key : HeaderKey
      pub engine : SchemeXts
      pub length-salt : length salt ≡ salt_len
      pub derived :
          derive_header_key c.kdf params.prf.name
            (apply_keyfiles params.passphrase params.keyfiles)
            salt
            (iterations_for_pim params.prf params.pim)
            (key_bytes params.scheme)
          ≡ ok key
      pub keyed : Xts.new params.scheme (as_bytes key) ≡ ok engine
      pub joined : region ≡ salt ++ encrypt_header c.mode engine header
      pub length-region : length region ≡ salt_len + length header

    pub Runs-IsCopy :
        (off : ℕ) (header xs : List ℕ) (t : r.State)
        → key_bytes params.scheme ≤ max_header_key
        → off + (salt_len + length header) ≤ length xs
        → (region : List ℕ) × IsCopy header region
          × Runs Holds
              (write_header_copy c d r off header params)
              (xs, t)
              (ok tt)
              (splice off region xs, random.rest salt_len t)
    unfolding write_header_copy
    Runs-IsCopy off header xs t fits room =
        let salt : List ℕ = random.bytes salt_len t in
        let (key, derived, length-key, prefixes) =
          derives (apply_keyfiles params.passphrase params.keyfiles) salt
            (iterations_for_pim params.prf params.pim) (key_bytes params.scheme) fits in
        let (engine, keyed) = new_ok params.scheme (as_bytes key) length-key in
        let whole : length (salt ++ encrypt_header c.mode engine header)
            ≡ salt_len + length header =
          omega (
            arith,
            length-append salt (encrypt_header c.mode engine header),
            length-encrypt_header c.mode laws engine header,
            random.length-bytes salt_len t,
          ) in
        (
          salt ++ encrypt_header c.mode engine header,
          record {
            salt = salt;
            key = key;
            engine = engine;
            length-salt = random.length-bytes salt_len t;
            derived = derived;
            keyed = keyed;
            joined = refl;
            length-region = whole;
          },
          Runs-bind Holds (fill_random c d r salt_len) _ (Runs-random salt_len xs t) (
              Runs-value Holds _ _ derived (
                Runs-value Holds _ _ keyed (
                  Runs-on_device (d.write_at off (salt ++ encrypt_header c.mode engine header))
                    (random.rest salt_len t)
                    (Runs-write d store off (salt ++ encrypt_header c.mode engine header) xs
                      (omega (arith, whole)))))),
        )

  -- Bytes of a container that none of the regions at these offsets meets.
  abbrev pub Outside : ℕ → ℕ → List ℕ → Type 0
  Outside off n offs = All (λ o. (o + header_region_len ≤ off) ⊎ (off + n ≤ o)) offs

  pub Runs-fill :
      (offs xs : List ℕ) (t : r.State)
      → All (λ o. o + header_region_len ≤ length xs) offs
      → (ys : List ℕ) × (u : r.State) × (length ys ≡ length xs)
        × ((off n : ℕ) → Outside off n offs → slice off n ys ≡ slice off n xs)
        × Runs Holds (fill_regions c d r offs) (xs, t) (ok tt) (ys, u)
  unfolding fill_regions
  Runs-fill [] xs t fits = (xs, t, refl, λ off n o. refl, Runs-lift Holds (ok tt) (xs, t))
  Runs-fill (o ∷ offs) xs t (fit, fits) =
      let rnd : List ℕ = random.bytes header_region_len t in
      let size : length rnd ≡ header_region_len = random.length-bytes header_region_len t in
      let room : o + length rnd ≤ length xs = omega (arith, size) in
      let same : length (splice o rnd xs) ≡ length xs = length-splice o rnd xs room in
      let (ys, u, length-ys, keeps, run) =
        Runs-fill offs (splice o rnd xs) (random.rest header_region_len t) (rw same fits) in
      (
        ys,
        u,
        length-ys ∙ same,
        λ off n (apart, rest).
            keeps off n rest
            ∙ slice-splice_apart off n o rnd xs room
                (elim apart [ inl a ↦ inl (omega (arith, size)) | inr a ↦ inr a ]),
        Runs-bind Holds (fill_random c d r header_region_len) _ (Runs-random header_region_len xs t)
            (Runs-bind Holds (on_device (d.write_at o rnd)) _
              (Runs-on_device (d.write_at o rnd) (random.rest header_region_len t)
                (Runs-write d store o rnd xs room))
              run),
      )

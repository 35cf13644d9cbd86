-- ===== src/Session/Guarded.antt =====
-- The stack of core/vault-core/src/session.rs that opens an outer volume with its hidden volume
-- protected: core/vc-format/src/protect.rs over core/vc-format/src/decrypted.rs over the container.
use vault_pony_core.Prelude.{
  ℕ, ◌+◌, ◌-◌, ◌/◌, ◌%◌, ◌≤◌, ◌<◌, ◌≡◌, refl, sym, ap, ◌∙◌, none, some, true, false, List, length,
  ltb, if◌then◌else◌, Bool, arith,
}
use vault_pony_core.Prelude.Slices.{slice, slice-slice}
use vault_pony_core.Prelude.Words.{u64_mod, add64}
use vault_pony_core.Types.Error.{VcError, VcResult, ok, err, ok_injective}
use vault_pony_core.Types.Header.{VolumeGeometry}
use vault_pony_core.Device.{BlockDevice}
use vault_pony_core.Device.Store.{IsStore, RefusesPastEnd}
use vault_pony_core.Crypto.Xts.{XtsMode, SchemeXts, encrypt_units}
use vault_pony_core.Crypto.Xts.RoundTrip.{IsXts, IsPermutation, encrypt_units-decrypt_units}
use vault_pony_core.Format.Decrypted.{DecryptedDevice, decrypted_device}
use vault_pony_core.Format.Decrypted
use vault_pony_core.Format.Decrypted.Read.{IsLive, view, plain, length-view}
use vault_pony_core.Format.Decrypted.Units.{decrypt_units-slice}
use vault_pony_core.Format.Decrypted.Stored.{
  decrypted_device-IsStore, decrypted_device-RefusesPastEnd,
}
use vault_pony_core.Format.Protect.{Region, Protected, region, protected_device}
use vault_pony_core.Format.Protect.Safety.{Call, run, run-guarded, run-IsLive}
use vault_pony_core.Session.{protected_region}

-- The region is the hidden data area, counted from the start of the outer one, and lies in it.
pub record IsInside (outer_geo hidden_geo : VolumeGeometry) (g : Region) : Type 0 where
  pub start : g.protected_start + outer_geo.encrypted_area_start ≡ hidden_geo.encrypted_area_start
  pub end : g.protected_end ≡ g.protected_start + hidden_geo.encrypted_area_size
  pub fits : g.protected_end ≤ outer_geo.encrypted_area_size

accepted :
    (b : Bool) (y : VcError) (r g : Region)
    → ◌≡◌ {A = VcResult Region} (if b then err y else ok r) (ok g)
    → (b ≡ false) × (r ≡ g)
accepted true y r g e = absurd (cc)
accepted false y r g e = (refl, ok_injective e)

-- The two tests of `protected_region`.
tests_passed :
    (b : Bool) (k size : ℕ) (f : ℕ → Bool) (x y : VcError) (g : Region)
    → elim (if b then none else some k) [
      | none ↦ err x
      | some start ↦ if f start then err y else ok (region start size)
    ]
      ≡ ok g
    → (b ≡ false) × (f k ≡ false) × (region k size ≡ g)
tests_passed true k size f x y g e = absurd (cc)
tests_passed false k size f x y g e =
    let (under, same) = accepted (f k) y (region k size) g e in (refl, under, same)

pub protected_region-IsInside :
    (outer_geo hidden_geo : VolumeGeometry) (g : Region)
    → hidden_geo.encrypted_area_start + hidden_geo.encrypted_area_size < u64_mod
    → protected_region outer_geo hidden_geo ≡ ok g
    → IsInside outer_geo hidden_geo g
unfolding protected_region region
protected_region-IsInside outer_geo hidden_geo g h e =
    let start = hidden_geo.encrypted_area_start - outer_geo.encrypted_area_start in
    let size = hidden_geo.encrypted_area_size in
    let (after, under, same) =
      tests_passed (ltb hidden_geo.encrypted_area_start outer_geo.encrypted_area_start) start size
        (λ k. ltb outer_geo.encrypted_area_size (add64 k size)) _ _ g e in
    let le : outer_geo.encrypted_area_start ≤ hidden_geo.encrypted_area_start = ground arith in
    let fits : start + size ≤ outer_geo.encrypted_area_size = ground arith in
    rw (sym same) (record { start = omega arith; end = omega arith; fits = omega arith })

module _ (x : XtsMode) (laws : IsXts x) (perm : IsPermutation x) (d : BlockDevice)
    (store : IsStore d) (e : SchemeXts) (outer_geo hidden_geo : VolumeGeometry) (g : Region) where
  abbrev area : DecryptedDevice
  area = Decrypted.new e outer_geo

  -- The bytes of the container that the hidden volume's data area is made of.
  abbrev pub hidden_bytes : d.State → List ℕ
  hidden_bytes s =
      slice hidden_geo.encrypted_area_start hidden_geo.encrypted_area_size (store.content s)

  -- They are the encryption of what the outer volume sees there.
  hidden_bytes-view :
      (s : d.State)
      → IsLive x laws d store area s
      → IsInside outer_geo hidden_geo g
      → hidden_geo.encrypted_area_start % 512 ≡ 0
      → hidden_geo.encrypted_area_size % 512 ≡ 0
      → hidden_bytes s
        ≡ encrypt_units x e
            (slice g.protected_start
              (g.protected_end - g.protected_start)
              (view x laws d store area s))
            (hidden_geo.encrypted_area_start / 512)
  unfolding Decrypted.new
  hidden_bytes-view s l i a b = sym (
      ap (λ y. encrypt_units x e y (hidden_geo.encrypted_area_start / 512))
        (ap (λ n. slice g.protected_start n (view x laws d store area s)) size
          ∙ slice-slice outer_geo.encrypted_area_start outer_geo.encrypted_area_size
              g.protected_start hidden_geo.encrypted_area_size hidden_geo.encrypted_area_start
              (plain x laws d store area s) (omega (arith, i.end, i.fits)) (omega (arith, i.start))
          ∙ sym (
              decrypt_units-slice x laws e (store.content s) (hidden_geo.encrypted_area_start / 512)
                (hidden_geo.encrypted_area_size / 512) hidden_geo.encrypted_area_start
                hidden_geo.encrypted_area_size (omega arith) (omega arith)
                (omega (arith, i.start, i.end, i.fits, l.inside))))
      ∙ encrypt_units-decrypt_units x perm e (hidden_bytes s) _)
    where
      size : g.protected_end - g.protected_start ≡ hidden_geo.encrypted_area_size
      size = omega (arith, i.end)

  -- After an outer volume has been opened with its hidden volume protected, no sequence of calls of a
  -- file system changes a byte of the container in the hidden data area. The hidden data area consists
  -- of whole units and ends below 2 ^ 64, the XTS mode obeys its laws, and the container stores bytes,
  -- consists of whole units, has a 64-bit length and holds the outer data area.
  pub hidden_bytes-run :
      (cs : List Call) (p : Protected d.State)
      → protected_region outer_geo hidden_geo ≡ ok g
      → hidden_geo.encrypted_area_start % 512 ≡ 0
      → hidden_geo.encrypted_area_size % 512 ≡ 0
      → hidden_geo.encrypted_area_start + hidden_geo.encrypted_area_size < u64_mod
      → IsLive x laws d store area p.inner
      → hidden_bytes (run (protected_device (decrypted_device x d area) g) cs p).inner
        ≡ hidden_bytes p.inner
  hidden_bytes-run cs p r a b z l =
      hidden_bytes-view after live i a b
      ∙ ap (λ y. encrypt_units x e y (hidden_geo.encrypted_area_start / 512))
          (run-guarded outer outer_store bounded g small cs p l size)
      ∙ sym (hidden_bytes-view p.inner l i a b)
    where
      i : IsInside outer_geo hidden_geo g
      i = protected_region-IsInside outer_geo hidden_geo g z r

      outer : BlockDevice
      outer = decrypted_device x d area

      outer_store : IsStore outer
      outer_store = decrypted_device-IsStore x laws d store area

      bounded : RefusesPastEnd outer outer_store
      bounded = decrypted_device-RefusesPastEnd x laws d store area

      small : g.protected_end < u64_mod
      small = omega (arith, i.start, i.end)

      size : length (view x laws d store area p.inner) < u64_mod
      size = omega (arith, length-view x laws d store area p.inner l, l.inside, l.small)

      after : d.State
      after = (run (protected_device outer g) cs p).inner

      live : IsLive x laws d store area after
      live = run-IsLive outer outer_store bounded g small cs p l size

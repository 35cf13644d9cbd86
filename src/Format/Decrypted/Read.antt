-- ===== src/Format/Decrypted/Read.antt =====
-- The decrypted device of core/vc-format/src/decrypted.rs stores bytes, as its trait promises: over a
-- device that stores the ciphertext it behaves as one that stores the plaintext of the data area.
use vault_pony_core.Prelude.{
  ℕ, ◌+◌, ◌*◌, ◌/◌, ◌%◌, ◌≤◌, ◌<◌, ◌≡◌, refl, sym, ap, subst, ◌∙◌, true, false, List, [], length,
  ◌==◌, Bool-cases, inl, inr, arith,
}
use vault_pony_core.Prelude.Slices.{slice, length-slice, slice-slice}
use vault_pony_core.Prelude.Words.{u64_mod, add64, sub64, div_ceil}
use vault_pony_core.Types.Error.{ok, pure, bind_ok, bind_pure_state, ◌>>=◌}
use vault_pony_core.Device.{BlockDevice}
use vault_pony_core.Device.Store.{IsStore}
use vault_pony_core.Crypto.Xts.{XtsMode, decrypt_units}
use vault_pony_core.Crypto.Xts.RoundTrip.{IsXts, length-decrypt_units}
use vault_pony_core.Format.Decrypted.{
  DecryptedDevice, past_end, aligned_start, span, read_units, read_at,
}
use vault_pony_core.Format.Decrypted.Units.{decrypt_units-slice}

-- The arithmetic of a span does not wrap below the end of a container of whole units, and it covers
-- the bytes asked for.
pub record IsSpan (abs n len : ℕ) : Type 0 where
  pub start : aligned_start abs ≡ abs / 512 * 512
  pub skip : sub64 abs (aligned_start abs) ≡ abs % 512
  pub units : span abs n ≡ div_ceil (abs % 512 + n) 512 * 512
  pub fits : aligned_start abs + span abs n ≤ len
  pub covers : abs % 512 + n ≤ span abs n

span_lem : (abs n len : ℕ) → abs + n ≤ len → len < u64_mod → len % 512 ≡ 0 → IsSpan abs n len
span_lem abs n len h small whole = record {
  start = ground arith;
  skip = ground arith;
  units = ground arith;
  fits = ground arith;
  covers = ground arith;
}

pub past_end_inside :
    (size off n : ℕ) → off + n ≤ size → size < u64_mod → past_end size off n ≡ false
past_end_inside size off n h small = ground arith

pub past_end_outside : (size off n : ℕ) → size < off + n → past_end size off n ≡ true
past_end_outside size off n h = ground arith

module _ (x : XtsMode) (laws : IsXts x) (d : BlockDevice) (store : IsStore d)
    (v : DecryptedDevice) where
  -- The plaintext of the whole container, and of the data area.
  abbrev pub plain : d.State → List ℕ
  plain s = decrypt_units x v.xts (store.content s) 0

  abbrev pub view : d.State → List ℕ
  view s = slice v.data_start v.data_size (plain s)

  -- The container consists of whole units and holds the data area.
  pub record IsLive (s : d.State) : Type 0 where
    pub live : store.IsLive s
    pub small : length (store.content s) < u64_mod
    pub whole : length (store.content s) % 512 ≡ 0
    pub inside : v.data_start + v.data_size ≤ length (store.content s)

  -- A state reached by reading alone.
  pub record Same (s t : d.State) : Type 0 where
    pub live : IsLive t
    pub content : store.content t ≡ store.content s

  pub Same-self : (s : d.State) → IsLive s → Same s s
  Same-self s l = record { live = l; content = refl }

  Same-read : (s : d.State) (off n : ℕ) → IsLive s → Same s (d.read_at off n s).1
  Same-read s off n l = record {
    live = record {
      live = store.read_live s off n l.live;
      small = rw kept l.small;
      whole = rw kept l.whole;
      inside = rw kept l.inside;
    };
    content = kept;
  }
    where
      kept : store.content (d.read_at off n s).1 ≡ store.content s
      kept = store.read_keeps s off n l.live

  pub length-plain : (s : d.State) → length (plain s) ≡ length (store.content s)
  length-plain s = length-decrypt_units x laws v.xts (store.content s) 0

  pub length-view : (s : d.State) → IsLive s → length (view s) ≡ v.data_size
  length-view s l = length-slice v.data_start v.data_size (plain s) (rw length-plain l.inside)

  module _ (s : d.State) (l : IsLive s) (abs n : ℕ) (h : abs + n ≤ length (store.content s)) where
    pub at : IsSpan abs n (length (store.content s))
    at = span_lem abs n (length (store.content s)) h l.small l.whole

    pub unit_number : aligned_start abs ≡ aligned_start abs / 512 * 512
    unit_number = omega (arith, at.start)

    pub read_units_lem : read_units x d v abs n s ≡ (
      ok (slice (aligned_start abs) (span abs n) (plain s)),
      (d.read_at (aligned_start abs) (span abs n) s).1,
    )
    unfolding read_units
    read_units_lem =
        bind_ok (d.read_at (aligned_start abs) (span abs n)) _ s
          (store.read_value s (aligned_start abs) (span abs n) l.live at.fits)
        ∙ ap (λ b. (ok b, (d.read_at (aligned_start abs) (span abs n) s).1))
            (decrypt_units-slice x laws v.xts (store.content s) (aligned_start abs / 512)
              (div_ceil (abs % 512 + n) 512) (aligned_start abs) (span abs n) unit_number at.units
              at.fits)

  read_at_zero :
      (s : d.State) (off : ℕ)
      → past_end v.data_size off 0 ≡ false
      → read_at x d v off 0 s ≡ (ok [], s)
  unfolding read_at
  read_at_zero s off e = rw e

  read_at_some :
      (s : d.State) (off n : ℕ)
      → past_end v.data_size off n ≡ false
      → (n == 0) ≡ false
      → let abs = add64 v.data_start off in
        read_at x d v off n s
        ≡ (read_units x d v abs n >>= λ b. pure (slice (sub64 abs (aligned_start abs)) n b)) s
  unfolding read_at
  read_at_some s off n e z = rw (e, z)

  pub read_units-Same : (s : d.State) (abs n : ℕ) → IsLive s → Same s (read_units x d v abs n s).1
  unfolding read_units
  read_units-Same s abs n l =
      subst (Same s)
        (sym (
          bind_pure_state (d.read_at (aligned_start abs) (span abs n))
            (λ b. decrypt_units x v.xts b (aligned_start abs / 512)) s))
        (Same-read s (aligned_start abs) (span abs n) l)

  -- Any read, also one that is refused or fails, leaves the stored bytes as they are.
  pub read_at-Same : (s : d.State) (off n : ℕ) → IsLive s → Same s (read_at x d v off n s).1
  unfolding read_at
  read_at-Same s off n l = elim (Bool-cases (past_end v.data_size off n)) [
    | inl e ↦ rw e (Same-self s l)
    | inr e ↦ rw e (elim (Bool-cases (n == 0)) [
      | inl z ↦ rw z (Same-self s l)
      | inr z ↦ rw z (
          subst (Same s)
            (sym (
              bind_pure_state (read_units x d v (add64 v.data_start off) n)
                (λ b.
                  slice (sub64 (add64 v.data_start off) (aligned_start (add64 v.data_start off))) n
                    b)
                s))
            (read_units-Same s (add64 v.data_start off) n l))
    ])
  ]

  -- A read inside the data area, aligned to units or not, succeeds and returns exactly the bytes of the
  -- plaintext there. The XTS mode obeys its laws; the container stores bytes, consists of whole units,
  -- has a 64-bit length and holds the data area.
  pub read_at-view :
      (s : d.State) (off n : ℕ)
      → IsLive s
      → off + n ≤ v.data_size
      → (read_at x d v off n s).0 ≡ ok (slice off n (view s))
  read_at-view s off n l h = elim (Bool-cases (n == 0)) [
    | inl z ↦
        let none_asked : n ≡ 0 = ground arith in
        rw (none_asked, read_at_zero s off (past_end_inside v.data_size off 0 (omega arith) big))
    | inr z ↦
        ap (λ p. p.0) (read_at_some s off n inside z)
        ∙ ap (λ p. p.0) (bind_ok (read_units x d v abs n) _ s (ap (λ p. p.0) units))
        ∙ ap ok (
            slice-slice (aligned_start abs) (span abs n) (sub64 abs (aligned_start abs)) n abs
              (plain s) (omega (arith, (at s l abs n fits).skip, (at s l abs n fits).covers))
              (omega (arith, (at s l abs n fits).skip, (at s l abs n fits).start))
            ∙ sym (slice-slice v.data_start v.data_size off n abs (plain s) h no_wrap))
  ]
    where
      abs : ℕ
      abs = add64 v.data_start off

      big : v.data_size < u64_mod
      big = omega (arith, l.inside, l.small)

      inside : past_end v.data_size off n ≡ false
      inside = past_end_inside v.data_size off n h big

      no_wrap : abs ≡ v.data_start + off
      no_wrap = omega (arith, l.inside, l.small)

      fits : abs + n ≤ length (store.content s)
      fits = omega (arith, no_wrap, l.inside)

      units : read_units x d v abs n s ≡ (
        ok (slice (aligned_start abs) (span abs n) (plain s)),
        (d.read_at (aligned_start abs) (span abs n) s).1,
      )
      units = read_units_lem s l abs n fits

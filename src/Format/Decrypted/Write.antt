-- ===== src/Format/Decrypted/Write.antt =====
-- Writes through the decrypted device of core/vc-format/src/decrypted.rs, and the device as a store.
use vault_pony_core.Prelude.{
  ℕ, ◌+◌, ◌/◌, ◌%◌, ◌≤◌, ◌<◌, ◌≡◌, refl, sym, ap, subst, ◌∙◌, Bool, false, not, ◌||◌, List, length,
  ◌==◌, replicate, Bool-cases, inl, inr, arith, length-replicate,
}
use vault_pony_core.Prelude.Slices.{
  slice, splice, length-slice, length-splice, splice-splice-slice, slice-splice, splice_whole,
  splice_empty,
}
use vault_pony_core.Prelude.Words.{add64, sub64, div_ceil}
use vault_pony_core.Types.Error.{VcResult, ok, err, io, unexpected_eof, bind_ok}
use vault_pony_core.Device.{BlockDevice}
use vault_pony_core.Device.Store.{IsStore}
use vault_pony_core.Crypto.Xts.{XtsMode, decrypt_units, encrypt_units}
use vault_pony_core.Crypto.Xts.RoundTrip.{IsXts, length-encrypt_units, decrypt_units-encrypt_units}
use vault_pony_core.Format.Decrypted.{
  DecryptedDevice, past_end, aligned_start, span, read_at, old_block, write_at,
}
use vault_pony_core.Format.Decrypted.Units.{decrypt_units-splice}
use vault_pony_core.Format.Decrypted.Read.{
  IsSpan, past_end_inside, past_end_outside, plain, view, IsLive, Same, Same-self, length-plain, at,
  unit_number, read_units_lem, read_units-Same,
}

module _ (x : XtsMode) (laws : IsXts x) (d : BlockDevice) (store : IsStore d)
    (v : DecryptedDevice) where
  -- What `old_block` leaves: a block whose patched form is the patched old plaintext of the span.
  record IsOld (s : d.State) (abs : ℕ) (b : List ℕ) (r : VcResult (List ℕ) × d.State) : Type 0 where
    block : List ℕ
    value : r.0 ≡ ok block
    same : Same x laws d store v s r.1
    patched :
        splice (sub64 abs (aligned_start abs)) b block
        ≡ splice
            (sub64 abs (aligned_start abs))
            b
            (slice (aligned_start abs) (span abs (length b)) (plain x laws d store v s))

  old_block-IsOld :
      (s : d.State) (abs : ℕ) (b : List ℕ)
      → IsLive x laws d store v s
      → abs + length b ≤ length (store.content s)
      → IsOld s abs b (old_block x d v abs (length b) s)
  unfolding old_block
  old_block-IsOld s abs b l h = elim (Bool-cases partial) [
    | inl e ↦ rw e (record {
      block = slice (aligned_start abs) (span abs (length b)) (plain x laws d store v s);
      value = ap (λ p. p.0) (read_units_lem x laws d store v s l abs (length b) h);
      same = read_units-Same x laws d store v s abs (length b) l;
      patched = refl;
    })
    | inr e ↦ rw e (record {
      block = replicate (span abs (length b)) 0;
      value = refl;
      same = Same-self x laws d store v s l;
      patched =
          ap (λ k. splice k b (replicate (span abs (length b)) 0)) (aligned e).0
          ∙ splice_whole b (replicate (span abs (length b)) 0)
              (omega (arith, (aligned e).1, length-replicate {A = ℕ} (span abs (length b)) 0))
          ∙ sym (
              ap (λ k. splice k b old) (aligned e).0
              ∙ splice_whole b old (omega (arith, (aligned e).1, length-old)));
    })
  ]
    where
      partial : Bool
      partial = not (sub64 abs (aligned_start abs) == 0) || not (add64 abs (length b) % 512 == 0)

      old : List ℕ
      old = slice (aligned_start abs) (span abs (length b)) (plain x laws d store v s)

      length-old : length old ≡ span abs (length b)
      length-old =
          length-slice (aligned_start abs) (span abs (length b)) (plain x laws d store v s)
            (rw length-plain (at x laws d store v s l abs (length b) h).fits)

      aligned :
          partial ≡ false → (sub64 abs (aligned_start abs) ≡ 0) × (span abs (length b) ≡ length b)
      aligned e =
          let skip = (at x laws d store v s l abs (length b) h).skip in
          let units = (at x laws d store v s l abs (length b) h).units in
          let small = l.small in
          let t : (sub64 abs (aligned_start abs) ≡ 0) × (add64 abs (length b) % 512 ≡ 0) =
            ground arith in
          (t.0, ground (arith, t.0, t.1))

  -- What a write inside the data area has done: it succeeded, the device still works, and of the
  -- container's plaintext exactly the bytes written have changed.
  pub record IsWritten (s : d.State) (off : ℕ) (b : List ℕ) (r : VcResult (Unit {0}) × d.State)
      : Type 0 where
    pub value : r.0 ≡ ok tt
    pub live : IsLive x laws d store v r.1
    pub plain_is :
        plain x laws d store v r.1 ≡ splice (v.data_start + off) b (plain x laws d store v s)

  write_span :
      (s : d.State) (abs : ℕ) (b block : List ℕ) (t : d.State)
      → IsLive x laws d store v s
      → (h : abs + length b ≤ length (store.content s)) → Same x laws d store v s t
      → splice (sub64 abs (aligned_start abs)) b block
        ≡ splice
            (sub64 abs (aligned_start abs))
            b
            (slice (aligned_start abs) (span abs (length b)) (plain x laws d store v s))
      → let enc =
          encrypt_units x v.xts
            (splice (sub64 abs (aligned_start abs)) b block)
            (aligned_start abs / 512) in
        let r = d.write_at (aligned_start abs) enc t in
        (r.0 ≡ ok tt)
        × IsLive x laws d store v r.1
        × (plain x laws d store v r.1 ≡ splice abs b (plain x laws d store v s))
  write_span s abs b block t l h same patched = (
    store.write_value t a enc same.live.live fits,
    record {
      live = store.write_live t a enc same.live.live fits;
      small = rw (kept, length-splice a enc (store.content t) fits) same.live.small;
      whole = rw (kept, length-splice a enc (store.content t) fits) same.live.whole;
      inside = rw (kept, length-splice a enc (store.content t) fits) same.live.inside;
    },
    ap (λ c. decrypt_units x v.xts c 0) (kept ∙ ap (splice a enc) same.content)
        ∙ decrypt_units-splice x laws v.xts (store.content s) enc (a / 512)
            (div_ceil (abs % 512 + length b) 512) a
            (unit_number x laws d store v s l abs (length b) h) (length-enc ∙ sp.units)
            (omega (arith, length-enc, sp.fits))
        ∙ ap (λ y. splice a y (plain x laws d store v s))
            (decrypt_units-encrypt_units x laws v.xts new (a / 512) ∙ patched)
        ∙ splice-splice-slice a n (sub64 abs a) abs b (plain x laws d store v s)
            (omega (arith, sp.skip, sp.covers))
            (omega (arith, sp.fits, length-plain x laws d store v s))
            (omega (arith, sp.skip, sp.start)),
  )
    where
      a : ℕ
      a = aligned_start abs

      n : ℕ
      n = span abs (length b)

      sp : IsSpan abs (length b) (length (store.content s))
      sp = at x laws d store v s l abs (length b) h

      new : List ℕ
      new = splice (sub64 abs a) b block

      old : List ℕ
      old = slice a n (plain x laws d store v s)

      enc : List ℕ
      enc = encrypt_units x v.xts new (a / 512)

      length-old : length old ≡ n
      length-old = length-slice a n (plain x laws d store v s) (rw length-plain sp.fits)

      length-enc : length enc ≡ n
      length-enc =
          length-encrypt_units x laws v.xts new (a / 512)
          ∙ ap (λ y. length y) patched
          ∙ length-splice (sub64 abs a) b old (omega (arith, sp.skip, sp.covers, length-old))
          ∙ length-old

      fits : a + length enc ≤ length (store.content t)
      fits = omega (arith, length-enc, sp.fits, ap (λ y. length y) same.content)

      kept : store.content (d.write_at a enc t).1 ≡ splice a enc (store.content t)
      kept = store.write_content t a enc same.live.live fits

  -- A write inside the data area, aligned or not, succeeds and changes exactly the bytes written: in
  -- the plaintext of the whole container nothing else differs, neither in the same units nor in the
  -- header areas. The container consists of whole units and holds the data area.
  pub write_at-IsWritten :
      (s : d.State) (off : ℕ) (b : List ℕ)
      → IsLive x laws d store v s
      → off + length b ≤ v.data_size
      → IsWritten s off b (write_at x d v off b s)
  unfolding write_at
  write_at-IsWritten s off b l h = rw inside (elim (Bool-cases (length b == 0)) [
    | inl z ↦ rw z (record {
      value = refl;
      live = l;
      plain_is =
          sym (splice_empty (v.data_start + off) b (plain x laws d store v s) (ground arith));
    })
    | inr z ↦ rw z (
        subst (IsWritten s off b) (sym (bind_ok (old_block x d v abs (length b)) _ s prior.value))
          (record { value = done.0; live = done.1; plain_is = subst Plain no_wrap done.2 }))
  ])
    where
      abs : ℕ
      abs = add64 v.data_start off

      no_wrap : abs ≡ v.data_start + off
      no_wrap = omega (arith, l.inside, l.small)

      inside : past_end v.data_size off (length b) ≡ false
      inside = past_end_inside v.data_size off (length b) h (omega (arith, l.inside, l.small))

      fits : abs + length b ≤ length (store.content s)
      fits = omega (arith, no_wrap, l.inside)

      prior : IsOld s abs b (old_block x d v abs (length b) s)
      prior = old_block-IsOld s abs b l fits

      after_read : d.State
      after_read = (old_block x d v abs (length b) s).1

      enc : List ℕ
      enc =
          encrypt_units x v.xts (splice (sub64 abs (aligned_start abs)) b prior.block)
            (aligned_start abs / 512)

      r : VcResult (Unit {0}) × d.State
      r = d.write_at (aligned_start abs) enc after_read

      Plain : ℕ → Type 0
      Plain j = plain x laws d store v r.1 ≡ splice j b (plain x laws d store v s)

      done : (r.0 ≡ ok tt) × IsLive x laws d store v r.1 × Plain abs
      done = write_span s abs b prior.block after_read l fits prior.same prior.patched

  -- A write inside the data area, aligned to units or not, succeeds, and for a client of the data area
  -- it changes exactly the bytes written. The XTS mode obeys its laws; the container stores bytes,
  -- consists of whole units, has a 64-bit length and holds the data area.
  pub view-write_at :
      (s : d.State) (off : ℕ) (b : List ℕ)
      → IsLive x laws d store v s
      → off + length b ≤ v.data_size
      → ((write_at x d v off b s).0 ≡ ok tt)
        × (view x laws d store v (write_at x d v off b s).1
            ≡ splice off b (view x laws d store v s))
  view-write_at s off b l h = (
    (write_at-IsWritten s off b l h).value,
    ap (slice v.data_start v.data_size) (write_at-IsWritten s off b l h).plain_is
        ∙ slice-splice v.data_start v.data_size off (v.data_start + off) b
            (plain x laws d store v s) h (rw length-plain l.inside) refl,
  )

  pub Same-view :
      (s t : d.State)
      → Same x laws d store v s t
      → view x laws d store v t ≡ view x laws d store v s
  Same-view s t h = ap (λ c. slice v.data_start v.data_size (decrypt_units x v.xts c 0)) h.content

  -- A request that runs past the data area, in exact arithmetic, is refused before the container is
  -- touched.
  pub refused_past_end :
      (s : d.State) (off n : ℕ) (b : List ℕ)
      → v.data_size < off + n
      → length b ≡ n
      → (read_at x d v off n s ≡ (err (io unexpected_eof), s))
        × (write_at x d v off b s ≡ (err (io unexpected_eof), s))
  unfolding read_at write_at
  refused_past_end s off n b h e = rw e (rw (past_end_outside v.data_size off n h) (refl, refl))

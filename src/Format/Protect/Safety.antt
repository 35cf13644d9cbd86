-- ===== src/Format/Protect/Safety.antt =====
-- No sequence of calls to core/vc-format/src/protect.rs changes a byte of the hidden region.
use vault_pony_core.Prelude.{
  ℕ, ◌+◌, ◌-◌, ◌<◌, ◌≤◌, ◌≡◌, ◌≢◌, refl, ap, ◌∙◌, ◌⊎◌, inl, inr, false, not, ◌&&◌, List, [], ◌∷◌,
  ◌==◌, length, Bool-cases, arith,
}
use native.Mathlib.Decide.{dec_le}
use vault_pony_core.Prelude.Slices.{slice, slice-splice_apart, splice_empty, length-splice}
use vault_pony_core.Prelude.Words.{u64_mod}
use vault_pony_core.Device.{BlockDevice}
use vault_pony_core.Device.Store.{IsStore, RefusesPastEnd}
use vault_pony_core.Format.Protect.{
  Region, Protected, write_at, intersects_protected, protected_device,
}

-- What a file system asks of the device.
pub data Call : Type 0 where
  len flush : Call
  read : ℕ → ℕ → Call
  write : ℕ → List ℕ → Call

-- The state after a call, whatever it answered, and after a sequence of calls.
abbrev pub perform : (d : BlockDevice) → Call → d.State → d.State
perform d len s = (d.len s).1
perform d flush s = (d.flush s).1
perform d (read off n) s = (d.read_at off n s).1
perform d (write off b) s = (d.write_at off b s).1

abbrev pub run : (d : BlockDevice) → List Call → d.State → d.State
run d [] s = s
run d (c ∷ cs) s = run d cs (perform d c s)

module _ (d : BlockDevice) (store : IsStore d) (bounded : RefusesPastEnd d store) (g : Region)
    (small : g.protected_end < u64_mod) where
  abbrev pub guarded : d.State → List ℕ
  guarded s = slice g.protected_start (g.protected_end - g.protected_start) (store.content s)

  -- The device works, its size fits 64 bits, and the region holds these bytes.
  record Holds (bytes : List ℕ) (s : d.State) : Type 0 where
    live : store.IsLive s
    size : length (store.content s) < u64_mod
    same : guarded s ≡ bytes

  apart :
      (off n : ℕ)
      → n ≢ 0
      → off + n < u64_mod
      → intersects_protected g off n ≡ false
      → (off + n ≤ g.protected_start)
        ⊎ (g.protected_start + (g.protected_end - g.protected_start) ≤ off)
        ⊎ (g.protected_end ≤ g.protected_start)
  unfolding intersects_protected
  apart off n nz h e = ground arith

  guarded-write :
      (s : d.State) (off : ℕ) (b : List ℕ)
      → store.IsLive s
      → length (store.content s) < u64_mod
      → off + length b ≤ length (store.content s)
      → length b ≢ 0
      → intersects_protected g off (length b) ≡ false
      → guarded (d.write_at off b s).1 ≡ guarded s
  guarded-write s off b l z h nz e =
      ap (slice g.protected_start (g.protected_end - g.protected_start))
        (store.write_content s off b l h)
      ∙ elim (apart off (length b) nz (omega arith) e) [
        | inl before ↦ slice-splice_apart _ _ off b (store.content s) h (inl before)
        | inr (inl behind) ↦ slice-splice_apart _ _ off b (store.content s) h (inr behind)
        | inr (inr none) ↦ let e : g.protected_end - g.protected_start ≡ 0 = omega arith in rw e
      ]

  -- A write that reaches the wrapped device.
  pass-Holds :
      (bytes : List ℕ) (s : d.State) (off : ℕ) (b : List ℕ)
      → Holds bytes s
      → (length b ≡ 0) ⊎ ((length b ≢ 0) × (intersects_protected g off (length b) ≡ false))
      → Holds bytes (d.write_at off b s).1
  pass-Holds bytes s off b v c = elim (dec_le (off + length b) (length (store.content s))) [
    | no out ↦
        let e = bounded.write_refused s off b v.live (omega arith) in
        record { live = rw e v.live; size = rw e v.size; same = rw e v.same }
    | yes fits ↦ record {
      live = store.write_live s off b v.live fits;
      size =
          rw (store.write_content s off b v.live fits, length-splice off b (store.content s) fits)
            v.size;
      same = elim c [
        | inl z ↦
            ap (slice g.protected_start (g.protected_end - g.protected_start))
              (store.write_content s off b v.live fits ∙ splice_empty off b (store.content s) z)
            ∙ v.same
        | inr (nz, e) ↦ guarded-write s off b v.live v.size fits nz e ∙ v.same
      ];
    }
  ]

  write_at-Holds :
      (bytes : List ℕ) (p : Protected d.State) (off : ℕ) (b : List ℕ)
      → Holds bytes p.inner
      → Holds bytes (write_at d g off b p).1.inner
  unfolding write_at
  write_at-Holds bytes p off b v = elim (Bool-cases p.read_only) [
    | inl latched ↦ rw latched v
    | inr open_ ↦
        rw open_ (elim (Bool-cases (not (length b == 0) && intersects_protected g off (length b))) [
          | inl hit ↦ rw hit v
          | inr miss ↦ rw miss (pass-Holds bytes p.inner off b v (ground arith))
        ])
  ]

  read-Holds :
      (bytes : List ℕ) (p : Protected d.State) (s : d.State)
      → Holds bytes p.inner
      → store.IsLive s
      → store.content s ≡ store.content p.inner
      → Holds bytes s
  read-Holds bytes p s v l e = record {
    live = l;
    size = rw e v.size;
    same = ap (slice g.protected_start (g.protected_end - g.protected_start)) e ∙ v.same;
  }

  perform-Holds :
      (bytes : List ℕ) (c : Call) (p : Protected d.State)
      → Holds bytes p.inner
      → Holds bytes (perform (protected_device d g) c p).inner
  perform-Holds bytes len p v =
      read-Holds bytes p _ v (store.len_live p.inner v.live) (store.len_keeps p.inner v.live)
  perform-Holds bytes flush p v =
      read-Holds bytes p _ v (store.flush_live p.inner v.live) (store.flush_keeps p.inner v.live)
  perform-Holds bytes (read off n) p v =
      read-Holds bytes p _ v (store.read_live p.inner off n v.live)
        (store.read_keeps p.inner off n v.live)
  perform-Holds bytes (write off b) p v = write_at-Holds bytes p off b v

  run-Holds :
      (bytes : List ℕ) (cs : List Call) (p : Protected d.State)
      → Holds bytes p.inner
      → Holds bytes (run (protected_device d g) cs p).inner
  run-Holds bytes [] p v = v
  run-Holds bytes (c ∷ cs) p v =
      run-Holds bytes cs (perform (protected_device d g) c p) (perform-Holds bytes c p v)

  -- Whatever a file system asks of the protected device, in any order and with any offsets, the
  -- bytes of the protected region stay what they were. The wrapped device stores bytes, refuses
  -- writes past its end and has a size below 2 ^ 64, and so is the end of the region.
  pub run-guarded :
      (cs : List Call) (p : Protected d.State)
      → store.IsLive p.inner
      → length (store.content p.inner) < u64_mod
      → guarded (run (protected_device d g) cs p).inner ≡ guarded p.inner
  run-guarded cs p l z =
      (run-Holds (guarded p.inner) cs p (record { live = l; size = z; same = refl })).same

  pub run-IsLive :
      (cs : List Call) (p : Protected d.State)
      → store.IsLive p.inner
      → length (store.content p.inner) < u64_mod
      → store.IsLive (run (protected_device d g) cs p).inner
  run-IsLive cs p l z =
      (run-Holds (guarded p.inner) cs p (record { live = l; size = z; same = refl })).live

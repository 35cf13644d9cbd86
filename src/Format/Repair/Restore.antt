-- ===== src/Format/Repair/Restore.antt =====
-- The repairs of core/vc-format/src/repair.rs that put a header group or a primary header back: the
-- copy is verified under the password before the container is written.
use vault_pony_core.Prelude.{
  ℕ, ◌-◌, ◌^◌, ◌<◌, ◌≤◌, ◌≡◌, true, refl, sym, ap, ◌∙◌, inl, inr, List, [], ◌∷◌, ◌==◌,
  if◌then◌else◌, length, Bool-cases, arith,
}
use vault_pony_core.Prelude.Slices.{slice, splice, length-slice}
use vault_pony_core.Prelude.Words.{sub64}
use vault_pony_core.Types.Consts.{backup_standard_from_end}
use vault_pony_core.Types.Error.{VcResult, M, ok, err, internal, lift, pure, ◌>>=◌, ◌>>◌}
use vault_pony_core.Types.Header.{primary, backup_primary}
use vault_pony_core.Device.{BlockDevice}
use vault_pony_core.Device.Store.{IsStore}
use vault_pony_core.Device.Runs.{
  Readable, Stored, Runs, Runs-lift, Runs-bind, Runs-stop, Runs-guard, Runs-len, Runs-read,
  Runs-write, Runs-flush, Stored-Readable,
}
use vault_pony_core.Crypto.Primitives.{Primitives}
use vault_pony_core.Format.Search.{UnlockSecret, FoundHeader, find_header_at}
use vault_pony_core.Format.Search.Bytes.{search_in, find_header_at-Runs}
use vault_pony_core.Format.Repair.{
  header_region, header_group, slice_device, restore_from_file, restore_primary_from_embedded,
}

-- The bytes of the container after a repair with this answer: those of the repair, or the old ones.
abbrev pub repaired : VcResult FoundHeader → List ℕ → List ℕ → List ℕ
repaired (ok f) new old = new
repaired (err e) new old = old

abbrev Group : List ℕ → List ℕ → Unit {0} → Type 0
Group backup xs s = xs ≡ backup

slice_device-Readable : (backup : List ℕ) → Readable (slice_device backup) (Group backup) backup
slice_device-Readable backup = record {
  reads_len = λ s p. (refl, p);
  reads_at = λ off n h s p. ground arith;
}

sub64_small : (a b : ℕ) → b ≤ a → a < 2 ^ 64 → sub64 a b ≡ a - b
sub64_small a b h small = omega arith

module _ (c : Primitives) (secret : UnlockSecret) where
  -- What the copy alone decides.
  pub verified : List ℕ → VcResult FoundHeader
  verified backup =
      if length backup == header_group
      then search_in c secret (primary ∷ []) backup
      else err (internal "backup must be 131072 bytes")

  pub verified_whole :
      (backup : List ℕ)
      → length backup ≡ header_group
      → verified backup ≡ search_in c secret (primary ∷ []) backup
  unfolding verified
  verified_whole backup e =
      let whole : (length backup == header_group) ≡ true = ground arith in
      ap
        (λ b.
          if b
          then search_in c secret (primary ∷ []) backup
          else err (internal "backup must be 131072 bytes"))
        whole

  slice_device_lem :
      (backup : List ℕ)
      → length backup ≡ header_group
      → (find_header_at c (slice_device backup) secret (primary ∷ []) tt).0 ≡ verified backup
  slice_device_lem backup e =
      (find_header_at-Runs c (slice_device backup) (Group backup) backup
        (slice_device-Readable backup) secret (primary ∷ []) (omega arith) (omega arith) tt refl).0
      ∙ sym (verified_whole backup e)

  module _ (d : BlockDevice) (store : IsStore d) (xs : List ℕ) where
    -- A verification that leaves the bytes, and what is written when it succeeds.
    write_back :
        (m : M d.State FoundHeader) (r : VcResult FoundHeader)
        (k : FoundHeader → M d.State FoundHeader) (ys : List ℕ)
        → Runs (Stored d store) m xs r xs
        → ((f : FoundHeader) → Runs (Stored d store) (k f) xs (ok f) ys)
        → Runs (Stored d store) (m >>= k) xs r (repaired r ys xs)
    write_back m (ok f) k ys run next = Runs-bind (Stored d store) m k run (next f)
    write_back m (err e) k ys run next = Runs-stop (Stored d store) m k run

    -- The write of a region, the flush and the answer.
    put_back :
        (b : List ℕ) (f : FoundHeader)
        → length b ≤ length xs
        → Runs (Stored d store) (d.write_at 0 b >> (d.flush >> pure f)) xs (ok f) (splice 0 b xs)
    put_back b f room =
        Runs-bind (Stored d store) (d.write_at 0 b) _ (Runs-write d store 0 b xs (omega arith)) (
          Runs-bind (Stored d store) d.flush _ (Runs-flush d store (splice 0 b xs))
            (Runs-lift (Stored d store) (ok f) (splice 0 b xs)))

    pub restore_from_file-Runs :
        (backup : List ℕ)
        → header_group ≤ length xs
        → Runs
            (Stored d store)
            (restore_from_file c d backup secret)
            xs
            (verified backup)
            (repaired (verified backup) (splice 0 backup xs) xs)
    unfolding restore_from_file verified
    restore_from_file-Runs backup room = elim (Bool-cases (length backup == header_group)) [
      | inr e ↦ rw e (Runs-lift (Stored d store) (err _) xs)
      | inl e ↦ Runs-guard (Stored d store) _ _ _ e (
          rw (slice_device_lem backup (ground arith)) (
            write_back (lift (verified backup)) (verified backup) _ (splice 0 backup xs)
              (Runs-lift (Stored d store) (verified backup) xs)
              (λ f. put_back backup f (ground arith))))
    ]

    pub restore_primary_from_embedded-Runs :
        header_group ≤ length xs
        → length xs < 2 ^ 64
        → let r = search_in c secret (backup_primary ∷ []) xs in
          let region = slice (length xs - backup_standard_from_end) header_region xs in
          Runs
            (Stored d store)
            (restore_primary_from_embedded c d secret)
            xs
            r
            (repaired r (splice 0 region xs) xs)
    unfolding restore_primary_from_embedded
    restore_primary_from_embedded-Runs room small =
        write_back (find_header_at c d secret (backup_primary ∷ [])) _ _ _
          (find_header_at-Runs c d (Stored d store) xs (Stored-Readable d store xs) secret
            (backup_primary ∷ []) (omega arith) small)
          (λ f. Runs-bind (Stored d store) d.len _ (Runs-len d store xs) (
            rw (sub64_small (length xs) backup_standard_from_end room small) (
              Runs-bind (Stored d store)
                (d.read_at (length xs - backup_standard_from_end) header_region) _
                (Runs-read d store (length xs - backup_standard_from_end) header_region xs
                  (omega arith))
                (put_back _ f (
                  omega (
                    arith,
                    length-slice (length xs - backup_standard_from_end) header_region xs
                        (omega arith),
                  ))))))

  module _ (d : BlockDevice) (store : IsStore d) (s : d.State) where
    -- A restore from a file answers what the file alone decides: its length, and whether the password
    -- opens the primary header in it. Only when it does is the container written, and then the file's
    -- 131072 bytes are its first ones and all others are as before; when it does not, no byte of the
    -- container has changed. The container has room for the group.
    pub restore_from_file_lem :
        (backup : List ℕ)
        → store.IsLive s
        → header_group ≤ length (store.content s)
        → let t = restore_from_file c d backup secret s in
          (t.0 ≡ verified backup)
          × (store.content t.1
              ≡ repaired (verified backup) (splice 0 backup (store.content s)) (store.content s))
    restore_from_file_lem backup live room =
        let (answer, (_, bytes)) =
          restore_from_file-Runs d store (store.content s) backup room s (live, refl) in
        (answer, bytes)

    -- Restoring the primary header from the backup at the container's end answers what the search
    -- for that backup answers. Only when it opens is the container written: its first 65536 bytes are
    -- then those at the backup's place, and all others are as before. The container has room for
    -- a header group and its length is a 64-bit number.
    pub restore_primary_from_embedded_lem :
        store.IsLive s
        → header_group ≤ length (store.content s)
        → length (store.content s) < 2 ^ 64
        → let t = restore_primary_from_embedded c d secret s in
          let xs = store.content s in
          let r = search_in c secret (backup_primary ∷ []) xs in
          (t.0 ≡ r)
          × (store.content t.1
              ≡ repaired r
                  (splice 0 (slice (length xs - backup_standard_from_end) header_region xs) xs)
                  xs)
    restore_primary_from_embedded_lem live room small =
        let (answer, (_, bytes)) =
          restore_primary_from_embedded-Runs d store (store.content s) room small s (live, refl) in
        (answer, bytes)

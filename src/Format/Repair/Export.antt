-- ===== src/Format/Repair/Export.antt =====
-- `export_headers` and `restore_from_file` of core/vc-format/src/repair.rs are a backup and its
-- restoration.
use vault_pony_core.Prelude.{
  ℕ, ◌+◌, ◌≤◌, ◌≡◌, refl, subst, ap, ◌∙◌, List, [], ◌∷◌, ◌++◌, length, drop, arith,
}
use vault_pony_core.Prelude.Slices.{slice, splice, slice-slice, length-slice}
use vault_pony_core.Types.Consts.{salt_len, header_enc_len}
use vault_pony_core.Types.Error.{VcResult, ok}
use vault_pony_core.Types.Header.{primary}
use vault_pony_core.Types.Registry.{encryption_schemes, prfs}
use vault_pony_core.Device.{BlockDevice}
use vault_pony_core.Device.Store.{IsStore}
use vault_pony_core.Device.Runs.{Stored, Runs, Runs-bind, Runs-guard, Runs-len, Runs-read}
use vault_pony_core.Crypto.Primitives.{Primitives}
use vault_pony_core.Format.Search.{
  UnlockSecret, FoundHeader, position_offset, search, supported_of, max_key_len_of,
}
use vault_pony_core.Format.Search.Bytes.{slot_at, slots_in, search_in}
use vault_pony_core.Format.Repair.{header_group, export_headers, restore_from_file}
use vault_pony_core.Format.Repair.Restore.{
  verified, verified_whole, restore_from_file-Runs, repaired,
}

abbrev group_of : List ℕ → List ℕ
group_of = slice 0 header_group

slots_in-group_of :
    (xs : List ℕ)
    → header_group ≤ length xs
    → slots_in (group_of xs) (primary ∷ []) ≡ slots_in xs (primary ∷ [])
unfolding slots_in slot_at position_offset
slots_in-group_of xs room = λ i.
    record {
      position = primary;
      salt = slice-slice 0 header_group 0 salt_len 0 xs (omega arith) refl i;
      enc = slice-slice 0 header_group salt_len header_enc_len salt_len xs (omega arith) refl i;
    }
    ∷ []

module _ (c : Primitives) (secret : UnlockSecret) where
  search_in-group_of :
      (xs : List ℕ)
      → header_group ≤ length xs
      → verified c secret (group_of xs) ≡ search_in c secret (primary ∷ []) xs
  unfolding search_in
  search_in-group_of xs room =
      verified_whole c secret (group_of xs) (length-slice 0 header_group xs (omega arith))
      ∙ ap
          (λ slots.
            (search c (supported_of encryption_schemes)
              (max_key_len_of (supported_of encryption_schemes)) secret prfs slots).0)
          (slots_in-group_of xs room)

  module _ (d : BlockDevice) (store : IsStore d) where
    export-Runs :
        (xs ys : List ℕ) (f : FoundHeader)
        → header_group ≤ length xs
        → header_group ≤ length ys
        → search_in c secret (primary ∷ []) xs ≡ ok f
        → Runs (Stored d store) (export_headers d) xs (ok (slice 0 header_group xs)) xs
          × Runs
              (Stored d store)
              (restore_from_file c d (slice 0 header_group xs) secret)
              ys
              (ok f)
              (slice 0 header_group xs ++ drop header_group ys)
    unfolding export_headers
    export-Runs xs ys f room room' opens = (
      Runs-bind (Stored d store) d.len _ (Runs-len d store xs) (
          Runs-guard (Stored d store) _ _ _ (ground arith)
            (Runs-read d store 0 header_group xs (omega arith))),
      subst
          (λ (t : VcResult FoundHeader × List ℕ).
            Runs (Stored d store) (restore_from_file c d (group_of xs) secret) ys t.0 t.1)
          (λ i. (answer i, bytes i))
          (restore_from_file-Runs c secret d store ys (group_of xs) room'),
    )
      where
        answer : verified c secret (group_of xs) ≡ ok f
        answer = search_in-group_of xs room ∙ opens

        whole : 0 + length (group_of xs) ≡ header_group
        whole = omega (arith, length-slice 0 header_group xs (omega arith))

        bytes :
            repaired (verified c secret (group_of xs)) (splice 0 (group_of xs) ys) ys
            ≡ group_of xs ++ drop header_group ys
        bytes =
            ap (λ r. repaired r (splice 0 (group_of xs) ys) ys) answer
            ∙ ap (λ n. group_of xs ++ drop n ys) whole

    -- Exporting reads the first 131072 bytes and changes nothing. Restoring that export under a
    -- password that opens the primary header of the exported container succeeds with the very header
    -- found there, over whatever the container holds by then: its first 131072 bytes are again those
    -- of the export, and the rest is as it was. Both containers have room for the group.
    pub restore_from_file-export_headers :
        (s t : d.State) (f : FoundHeader)
        → store.IsLive s
        → store.IsLive t
        → header_group ≤ length (store.content s)
        → header_group ≤ length (store.content t)
        → search_in c secret (primary ∷ []) (store.content s) ≡ ok f
        → let e = export_headers d s in
          let backup = slice 0 header_group (store.content s) in
          let w = restore_from_file c d backup secret t in
          (e.0 ≡ ok backup)
          × (store.content e.1 ≡ store.content s)
          × (w.0 ≡ ok f)
          × (store.content w.1 ≡ backup ++ drop header_group (store.content t))
    restore_from_file-export_headers s t f live live' room room' opens =
        let (out, back) = export-Runs (store.content s) (store.content t) f room room' opens in
        let (a, (_, b)) = out s (live, refl) in
        let (a', (_, b')) = back t (live', refl) in (a, b, a', b')

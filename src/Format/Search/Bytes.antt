-- ===== src/Format/Search/Bytes.antt =====
-- The search of core/vc-format/src/lib.rs over a device that stores bytes: what it reads, and that
-- nothing but these bytes decides its answer.
use vault_pony_core.Prelude.{
  ℕ, ◌+◌, ◌^◌, ◌<◌, ◌≤◌, ◌≡◌, true, not, ◌==◌, refl, subst, inl, inr, none, some, Option-cases,
  List, [], ◌∷◌, length, arith,
}
use vault_pony_core.Prelude.Slices.{slice}
use vault_pony_core.Prelude.Words.{add64}
use vault_pony_core.Types.Consts.{salt_len, header_enc_len, header_region_len}
use vault_pony_core.Types.Error.{VcResult, ok}
use vault_pony_core.Types.Header.{HeaderPosition}
use vault_pony_core.Types.Registry.{encryption_schemes, prfs, key_bytes}
use vault_pony_core.Device.{BlockDevice}
use vault_pony_core.Device.Store.{IsStore}
use vault_pony_core.Device.Runs.{
  Stored, Stored-Readable, Runs, Readable, Runs-bind, Runs-guard, Runs-lift,
}
use vault_pony_core.Crypto.Primitives.{Primitives}
use vault_pony_core.Crypto.Xts.{supported}
use vault_pony_core.Format.Search.{
  UnlockSecret, Slot, FoundHeader, position_offset, supported_of, max_key_len_of, search, read_slot,
  read_slots, find_header_at,
}
use vault_pony_core.Format.Search.Positions.{RegionFits, position_offset-RegionFits}

unfoldable pub slot_at : HeaderPosition → ℕ → List ℕ → Slot
slot_at pos off bytes = record {
  position = pos;
  salt = slice off salt_len bytes;
  enc = slice (off + salt_len) header_enc_len bytes;
}

-- The slots of a container that holds these bytes.
unfoldable pub slots_in : List ℕ → List HeaderPosition → List Slot
unfolding slot_at
slots_in bytes [] = []
slots_in bytes (pos ∷ ps) = elim (position_offset pos (length bytes)) [
  | none ↦ slots_in bytes ps
  | some off ↦ slot_at pos off bytes ∷ slots_in bytes ps
]

add64_small : (off k : ℕ) → off + k < 2 ^ 64 → add64 off k ≡ off + k
add64_small off k h = omega arith

-- There is a scheme to try.
some_scheme : not (max_key_len_of (supported_of encryption_schemes) == 0) ≡ true
unfolding max_key_len_of supported_of supported key_bytes
some_scheme = refl

module _ (c : Primitives) where
  -- The answer of the search for a container that holds these bytes.
  unfoldable pub search_in : UnlockSecret → List HeaderPosition → List ℕ → VcResult FoundHeader
  unfolding slots_in supported_of max_key_len_of
  search_in secret positions bytes =
      (search c (supported_of encryption_schemes) (max_key_len_of (supported_of encryption_schemes))
        secret prfs (slots_in bytes positions)).0

  module _ (d : BlockDevice) (At : List ℕ → d.State → Type 0) (bytes : List ℕ)
      (readable : Readable d At bytes) where
    abbrev Answers : {A : Type 0} → (d.State → VcResult A × d.State) → VcResult A → Type 0
    Answers m r = Runs At m bytes r bytes

    read_slot_lem :
        (pos : HeaderPosition) (off : ℕ)
        → off + header_region_len ≤ length bytes
        → length bytes < 2 ^ 64
        → Answers (read_slot c d pos off) (ok (slot_at pos off bytes))
    unfolding read_slot slot_at
    read_slot_lem pos off fits small =
        Runs-bind At (d.read_at off salt_len) _ (readable.reads_at off salt_len (omega arith)) (
          rw (add64_small off salt_len (omega arith)) (
            Runs-bind At (d.read_at (off + salt_len) header_enc_len) _
              (readable.reads_at (off + salt_len) header_enc_len (omega arith))
              (Runs-lift At (ok _) bytes)))

    read_slots_lem :
        (positions : List HeaderPosition)
        → header_region_len ≤ length bytes
        → length bytes < 2 ^ 64
        → Answers (read_slots c d (length bytes) positions) (ok (slots_in bytes positions))
    unfolding read_slots slots_in
    read_slots_lem [] big small = Runs-lift At (ok []) bytes
    read_slots_lem (pos ∷ ps) big small = elim (Option-cases (position_offset pos (length bytes))) [
      | inl e ↦ rw (e, read_slots, slots_in) (read_slots_lem ps big small)
      | inr (off, e) ↦
          let fits : off + header_region_len ≤ length bytes =
            subst (RegionFits (length bytes)) e
              (position_offset-RegionFits pos (length bytes) big) in
          rw (e, read_slots, slots_in)
            (Runs-bind At (read_slot c d pos off) _ (read_slot_lem pos off fits small) (
              Runs-bind At (read_slots c d (length bytes) ps) _ (read_slots_lem ps big small)
                (Runs-lift At (ok (slot_at pos off bytes ∷ slots_in bytes ps)) bytes)))
    ]

    pub find_header_at-Runs :
        (secret : UnlockSecret) (positions : List HeaderPosition)
        → header_region_len ≤ length bytes
        → length bytes < 2 ^ 64
        → Answers (find_header_at c d secret positions) (search_in secret positions bytes)
    unfolding find_header_at search_in
    find_header_at-Runs secret positions big small = Runs-bind At d.len _ readable.reads_len (
        Runs-guard At (not (max_key_len_of (supported_of encryption_schemes) == 0)) _ _ some_scheme
          (Runs-bind At (read_slots c d (length bytes) positions) _
            (read_slots_lem positions big small) (Runs-lift At _ bytes)))

  -- The search over a device that stores bytes answers what the bytes alone decide, `search_in`: the
  -- slots it tries are those of `slots_in`, read in full. It leaves the bytes as they are. The container
  -- holds at least one header and its length is a 64-bit number.
  pub find_header_at_lem :
      (d : BlockDevice) (store : IsStore d) (secret : UnlockSecret)
      (positions : List HeaderPosition) (s : d.State)
      → store.IsLive s
      → header_region_len ≤ length (store.content s)
      → length (store.content s) < 2 ^ 64
      → ((find_header_at c d secret positions s).0 ≡ search_in secret positions (store.content s))
        × (store.content (find_header_at c d secret positions s).1 ≡ store.content s)
  find_header_at_lem d store secret positions s live big small =
      let (answer, (_, same)) =
        find_header_at-Runs d (Stored d store) (store.content s)
          (Stored-Readable d store (store.content s)) secret positions big small s (live, refl) in
      (answer, same)

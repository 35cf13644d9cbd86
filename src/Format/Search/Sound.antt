-- ===== src/Format/Search/Sound.antt =====
-- What the search of core/vc-format/src/lib.rs returns has been validated: by the key of the given
-- password, the scheme that it names, and the parser.
use vault_pony_core.Prelude.{
  ℕ, ◌≡◌, sym, ap, subst, ◌⊎◌, inl, inr, Option, none, some, List, [], ◌∷◌, take, length, ltb,
  Bool-cases,
}
use vault_pony_core.Types.Error.{
  VcResult, VcError, ok, err, not_found_or_wrong_password, Result-cases, ok_injective,
}
use vault_pony_core.Types.Header.{HeaderPosition, VolumeHeader}
use vault_pony_core.Types.Registry.{EncryptionScheme, key_bytes, Prf}
use vault_pony_core.Crypto.Primitives.{Primitives}
use vault_pony_core.Crypto.Kdf.{HeaderKey, as_bytes}
use vault_pony_core.Crypto.Xts
use vault_pony_core.Crypto.Xts.{SchemeXts, decrypt_header}
use vault_pony_core.Format.Parse.{parse_decrypted_header}
use vault_pony_core.Format.Search.{
  UnlockSecret, Slot, FoundHeader, SchemeOutcome, found, finding, miss, panicked, attempt, search,
  derive_for, judge, carry_on, try_scheme, try_schemes_from, try_schemes,
}
use vault_pony_core.Format.Search.Order.{pairs_of}
use vault_pony_core.Format.Search.Outcome.{LeadsTo, search-ok_iff}

-- Membership by recursion.
abbrev pub In : {A : Type 0} → A → List A → Type 0
In a [] = ⊥
In a (x ∷ xs) = (a ≡ x) ⊎ In a xs

judge-found :
    (s t : EncryptionScheme) (r : VcResult VolumeHeader) (h : VolumeHeader)
    → judge s r ≡ found h t
    → (t ≡ s) × (r ≡ ok h)
judge-found s t (ok g) h e = (cc, cc)
judge-found s t (err not_found_or_wrong_password) h e = cc
judge-found s t (err x) h e = cc

carry_on-found :
    (o : SchemeOutcome) (last : Option VcError) (k : Option VcError → SchemeOutcome)
    (h : VolumeHeader) (t : EncryptionScheme)
    → carry_on o last k ≡ found h t
    → (o ≡ found h t) ⊎ ((l : Option VcError) × (k l ≡ found h t))
carry_on-found (found g s) last k h t e = inl e
carry_on-found (finding x) last k h t e = inr (some x, e)
carry_on-found miss last k h t e = inr (last, e)
carry_on-found panicked last k h t e = inl e

module _ (c : Primitives) where
  -- A header that opens: it is what the ciphertext parses to under the scheme's engine, built from
  -- the first bytes of the key.
  abbrev pub Opens : EncryptionScheme → HeaderKey → List ℕ → HeaderPosition → VolumeHeader → Type 0
  Opens s key enc pos h =
      (e : SchemeXts) × (Xts.new s (take (key_bytes s) (as_bytes key)) ≡ ok e)
      × (parse_decrypted_header c.crc32 (decrypt_header c.mode e enc) pos ≡ ok h)

  try_scheme-found :
      (s : EncryptionScheme) (key : HeaderKey) (enc : List ℕ) (pos : HeaderPosition)
      (h : VolumeHeader) (t : EncryptionScheme)
      → try_scheme c s key enc pos ≡ found h t
      → (t ≡ s) × Opens s key enc pos h
  unfolding try_scheme
  try_scheme-found s key enc pos h t e =
      elim (Bool-cases (ltb (length (as_bytes key)) (key_bytes s))) [
        | inl short ↦ absurd (cc (rw (short, try_scheme) at e))
        | inr long ↦ elim (Result-cases (Xts.new s (take (key_bytes s) (as_bytes key)))) [
          | inr (x, n) ↦ absurd (cc (rw (long, n, try_scheme) at e))
          | inl (xts, n) ↦
              let (same, parsed) =
                judge-found s t (parse_decrypted_header c.crc32 (decrypt_header c.mode xts enc) pos)
                  h (rw (long, n, try_scheme) at e) in
              (same, (xts, n, parsed))
        ]
      ]

  try_schemes_from-found :
      (last : Option VcError) (ss : List EncryptionScheme) (key : HeaderKey) (enc : List ℕ)
      (pos : HeaderPosition) (h : VolumeHeader) (t : EncryptionScheme)
      → try_schemes_from c last ss key enc pos ≡ found h t
      → In t ss × Opens t key enc pos h
  unfolding try_schemes_from
  try_schemes_from-found none [] key enc pos h t e = absurd (cc)
  try_schemes_from-found (some x) [] key enc pos h t e = absurd (cc)
  try_schemes_from-found last (s ∷ ss) key enc pos h t e =
      elim (carry_on-found (try_scheme c s key enc pos) last
        (λ l. try_schemes_from c l ss key enc pos) h t e) [
          | inl n ↦
              let (same, o) = try_scheme-found s key enc pos h t n in
              (inl same, subst (λ u. Opens u key enc pos h) (sym same) o)
          | inr (l, n) ↦ let (m, o) = try_schemes_from-found l ss key enc pos h t n in (inr m, o)
        ]

  -- A pair that a list of pairs leads to.
  Leads-pair :
      (schemes : List EncryptionScheme) (n : ℕ) (secret : UnlockSecret) (f : FoundHeader)
      (l : List (Prf × Slot))
      → LeadsTo c schemes n secret f l
      → (slot : Slot) × In (f.prf, slot) l
        × (attempt c schemes n secret f.prf slot ≡ ok (found f.header f.scheme))
  Leads-pair schemes n secret f [] m = absurd m
  Leads-pair schemes n secret f ((prf, slot) ∷ l) (inl (a, e)) =
      (slot, inl (ap (λ p. (p, slot)) (sym e)), rw e at a)
  Leads-pair schemes n secret f ((prf, slot) ∷ l) (inr (a, m)) =
      let (s, i, r) = Leads-pair schemes n secret f l m in (s, inr i, r)

  attempt-found :
      (schemes : List EncryptionScheme) (n : ℕ) (secret : UnlockSecret) (prf : Prf) (slot : Slot)
      (h : VolumeHeader) (t : EncryptionScheme)
      → attempt c schemes n secret prf slot ≡ ok (found h t)
      → (key : HeaderKey) × (derive_for c prf secret slot.salt n ≡ ok key)
        × In t schemes
        × Opens t key slot.enc slot.position h
  unfolding attempt try_schemes
  attempt-found schemes n secret prf slot h t e =
      elim (Result-cases (derive_for c prf secret slot.salt n)) [
        | inr (x, d) ↦ absurd (cc (rw (d, attempt) at e))
        | inl (key, d) ↦
            let (m, o) =
              try_schemes_from-found none schemes key slot.enc slot.position h t
                (ok_injective (rw (d, attempt) at e)) in
            (key, d, m, o)
      ]

  -- A header that the search returns has been validated at one of the slots that it was given: the
  -- key is derived from the password and that slot's salt by the PRF that is reported, the scheme
  -- that is reported is one of those tried, and the slot's ciphertext decrypts under it to a region
  -- that the parser accepts as this very header.
  pub search_sound :
      (schemes : List EncryptionScheme) (n : ℕ) (secret : UnlockSecret) (default : Prf)
      (others : List Prf) (slots : List Slot) (f : FoundHeader)
      → (search c schemes n secret (default ∷ others) slots).0 ≡ ok f
      → (slot : Slot) × (key : HeaderKey) × In (f.prf, slot) (pairs_of (default ∷ others) slots)
        × (derive_for c f.prf secret slot.salt n ≡ ok key)
        × In f.scheme schemes
        × Opens f.scheme key slot.enc slot.position f.header
  search_sound schemes n secret default others slots f e =
      let (slot, i, a) =
        Leads-pair schemes n secret f (pairs_of (default ∷ others) slots)
          ((search-ok_iff c schemes n secret default others slots f).0 e) in
      let (key, d, m, o) = attempt-found schemes n secret f.prf slot f.header f.scheme a in
      (slot, key, i, d, m, o)

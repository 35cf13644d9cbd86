-- ===== src/Format/Search/Wrong.antt =====
-- When the search of core/vc-format/src/lib.rs reports a wrong password.
use Prim.Native.String.{String}
use vault_pony_core.Prelude.{
  ℕ, ◌*◌, ◌≡◌, ◌≢◌, refl, ap, ◌∙◌, take, inl, inr, ◌↔◌, Bool-cases, Option-cases, ltb, length,
  Option, none, some, List, [], ◌∷◌, All, arith,
}
use vault_pony_core.Types.Error.{
  VcResult, VcError, ok, err, not_found_or_wrong_password, version_too_new, system_volume,
  hidden_volume_protected, header_damaged, unsupported_filesystem, unknown_filesystem, filesystem,
  io, internal, Result-cases, ok_injective,
}
use vault_pony_core.Types.Header.{HeaderPosition, VolumeHeader}
use vault_pony_core.Types.Registry.{EncryptionScheme, key_bytes, Prf}
use vault_pony_core.Crypto.Primitives.{Primitives}
use vault_pony_core.Crypto.Kdf.{Pbkdf2, HeaderKey, as_bytes, derive_header_key}
use vault_pony_core.Crypto.Xts
use vault_pony_core.Crypto.Xts.{decrypt_header}
use vault_pony_core.Format.Search.{
  UnlockSecret, Slot, SchemeOutcome, found, finding, miss, panicked, Progress, Sweep, and_then,
  finish, attempt, note, settle, start, search, derive_for, judge, carry_on, try_scheme,
  try_schemes_from, try_schemes,
}
use vault_pony_core.Format.Search.Order.{pairs_of, try_pairs, search-try_pairs}
use vault_pony_core.Format.Search.Outcome.{Misses, try_pairs-Misses, length-pairs_of}

abbrev wrong : VcError
wrong = not_found_or_wrong_password

-- No attempt reports a wrong password itself: a missing magic is a miss.
judge-finding : (s : EncryptionScheme) (r : VcResult VolumeHeader) → judge s r ≢ finding wrong
judge-finding s (ok h) = λ e. cc
judge-finding s (err not_found_or_wrong_password) = λ e. cc
judge-finding s (err (version_too_new required supported)) = λ e. cc
judge-finding s (err system_volume) = λ e. cc
judge-finding s (err hidden_volume_protected) = λ e. cc
judge-finding s (err header_damaged) = λ e. cc
judge-finding s (err (unsupported_filesystem name)) = λ e. cc
judge-finding s (err unknown_filesystem) = λ e. cc
judge-finding s (err (filesystem detail)) = λ e. cc
judge-finding s (err (io x)) = λ e. cc
judge-finding s (err (internal what)) = λ e. cc

carry_on-finding :
    (o : SchemeOutcome) (last : Option VcError) (k : Option VcError → SchemeOutcome)
    → o ≢ finding wrong
    → last ≢ some wrong
    → ((l : Option VcError) → l ≢ some wrong → k l ≢ finding wrong)
    → carry_on o last k ≢ finding wrong
carry_on-finding (found h s) last k f n rest = λ e. cc
carry_on-finding (finding x) last k f n rest = rest (some x) (λ e. f (cc))
carry_on-finding miss last k f n rest = rest last n
carry_on-finding panicked last k f n rest = λ e. cc

module _ (c : Primitives) where
  try_scheme-finding :
      (s : EncryptionScheme) (key : HeaderKey) (enc : List ℕ) (pos : HeaderPosition)
      → try_scheme c s key enc pos ≢ finding wrong
  unfolding try_scheme
  try_scheme-finding s key enc pos e =
      elim (Bool-cases (ltb (length (as_bytes key)) (key_bytes s))) [
        | inl short ↦ absurd (cc (rw (short, try_scheme) at e))
        | inr long ↦ elim (Result-cases (Xts.new s (take (key_bytes s) (as_bytes key)))) [
          | inr (x, n) ↦ absurd (cc (rw (long, n, try_scheme) at e))
          | inl (xts, n) ↦ judge-finding s _ (rw (long, n, try_scheme) at e)
        ]
      ]

  try_schemes_from-finding :
      (last : Option VcError) (ss : List EncryptionScheme) (key : HeaderKey) (enc : List ℕ)
      (pos : HeaderPosition)
      → last ≢ some wrong
      → try_schemes_from c last ss key enc pos ≢ finding wrong
  unfolding try_schemes_from
  try_schemes_from-finding none [] key enc pos n = λ e. cc
  try_schemes_from-finding (some x) [] key enc pos n = λ e. n (cc)
  try_schemes_from-finding last (s ∷ ss) key enc pos n =
      carry_on-finding (try_scheme c s key enc pos) last _ (try_scheme-finding s key enc pos) n
        (λ l m. try_schemes_from-finding l ss key enc pos m)

  derive_header_key-wrong :
      (p : Pbkdf2) (name : String) (pass salt : List ℕ) (n len : ℕ)
      → derive_header_key p name pass salt n len ≢ err wrong
  unfolding derive_header_key
  derive_header_key-wrong p name pass salt n len e = ground arith

  module _ (schemes : List EncryptionScheme) (n : ℕ) (secret : UnlockSecret) where
    attempt-wrong : (prf : Prf) (slot : Slot) → attempt c schemes n secret prf slot ≢ err wrong
    unfolding attempt derive_for
    attempt-wrong prf slot e = elim (Result-cases (derive_for c prf secret slot.salt n)) [
      | inl (key, d) ↦ absurd (cc (rw (d, attempt) at e))
      | inr (x, d) ↦
          let same : x ≡ wrong = cc (rw (d, attempt) at e) in
          derive_header_key-wrong c.kdf prf.name secret.passphrase slot.salt _ n (d ∙ ap err same)
    ]

    attempt-finding :
        (prf : Prf) (slot : Slot) → attempt c schemes n secret prf slot ≢ ok (finding wrong)
    unfolding attempt try_schemes
    attempt-finding prf slot e = elim (Result-cases (derive_for c prf secret slot.salt n)) [
      | inl (key, d) ↦
          try_schemes_from-finding none schemes key slot.enc slot.position (λ m. cc)
            (ok_injective (rw (d, attempt) at e))
      | inr (x, d) ↦ absurd (cc (rw (d, attempt) at e))
    ]

    -- One attempt, with what the rest of the pass shows given.
    settle-Misses :
        (prf : Prf) (slot : Slot) (l : List (Prf × Slot)) (p : Progress) (k : Progress → Sweep)
        → p.best ≢ some wrong
        → ((q : Progress)
            → q.best ≢ some wrong
            → (finish (k q)).0 ≡ err wrong
            → (q.best ≡ none) × All (Misses c schemes n secret) l)
        → (r : VcResult SchemeOutcome) → attempt c schemes n secret prf slot ≡ r
        → (finish (and_then (settle prf r p) k)).0 ≡ err wrong
        → (p.best ≡ none) × All (Misses c schemes n secret) ((prf, slot) ∷ l)
    settle-Misses prf slot l p k b ih (err x) a e = absurd (attempt-wrong prf slot (cc))
    settle-Misses prf slot l p k b ih (ok (found h s)) a e = absurd (cc)
    settle-Misses prf slot l p k b ih (ok (finding x)) a e =
        let (clash, rest) =
          ih (record p { best = some x })
            (λ q.
              let same : x ≡ wrong = cc (q) in
              attempt-finding prf slot (a ∙ ap (λ y. ok (finding y)) same))
            e in
        absurd (cc (clash))
    settle-Misses prf slot l p k b ih (ok panicked) a e = absurd (cc)
    settle-Misses prf slot l p k b ih (ok miss) a e =
        let (fresh, rest) = ih p b e in (fresh, (a, rest))

    try_pairs-wrong :
        (total : ℕ) (l : List (Prf × Slot)) (p : Progress)
        → p.best ≢ some wrong
        → (finish (try_pairs c schemes n secret total l p)).0 ≡ err wrong
        → (p.best ≡ none) × All (Misses c schemes n secret) l
    unfolding try_pairs
    try_pairs-wrong total [] p b e = elim (Option-cases p.best) [
      | inl fresh ↦ (fresh, tt)
      | inr (x, last) ↦ let same : x ≡ wrong = cc (rw last at e) in absurd (b (last ∙ ap some same))
    ]
    try_pairs-wrong total ((prf, slot) ∷ l) p b e =
        settle-Misses prf slot l (note total prf p) (λ q. try_pairs c schemes n secret total l q) b
          (λ q c e. try_pairs-wrong total l q c e) (attempt c schemes n secret prf slot) refl e

    pub search-wrong_password_iff :
        (default : Prf) (others : List Prf) (slots : List Slot)
        → let r = search c schemes n secret (default ∷ others) slots in
          ((r.0 ≡ err not_found_or_wrong_password)
            × (r.1.step ≡ length slots * length (default ∷ others))
            × (length r.1.log ≡ length slots * length (default ∷ others)))
          ↔ All (Misses c schemes n secret) (pairs_of (default ∷ others) slots)
    search-wrong_password_iff default others slots =
        let l = pairs_of (default ∷ others) slots in
        let total = length slots * length (default ∷ others) in
        let count = length-pairs_of (default ∷ others) slots in
        rw (search-try_pairs c schemes n secret default others slots) (
          λ e. (try_pairs-wrong total l start (λ b. cc) e.0).1,
          λ m.
              let (answer, steps, calls) = try_pairs-Misses c schemes n secret total l start m in
              (answer, omega (arith, steps, count), omega (arith, calls, count)),
        )

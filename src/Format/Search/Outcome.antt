-- ===== src/Format/Search/Outcome.antt =====
-- What the search of core/vc-format/src/lib.rs answers: when it succeeds and with what, and what a
-- wrong password costs.
use vault_pony_core.Prelude.{
  ℕ, ◌+◌, ◌*◌, ◌≡◌, refl, ap, ◌∙◌, ◌⊎◌, inl, inr, ◌↔◌, some, List, [], ◌∷◌, map, length,
  length-append, length-map, All, arith,
}
use vault_pony_core.Types.Error.{VcResult, VcError, ok, err, ok_injective}
use vault_pony_core.Types.Header.{VolumeHeader}
use vault_pony_core.Types.Registry.{EncryptionScheme, Prf}
use vault_pony_core.Crypto.Primitives.{Primitives}
use vault_pony_core.Format.Search.{
  UnlockSecret, Slot, FoundHeader, SchemeOutcome, found, finding, miss, panicked, Progress, Sweep,
  and_then, finish, attempt, note, settle, start, search, best_or,
}
use vault_pony_core.Format.Search.Order.{pairs_of, try_pairs, search-try_pairs}

pub length-pairs_of :
    (ps : List Prf) (slots : List Slot) → length (pairs_of ps slots) ≡ length slots * length ps
length-pairs_of [] slots = omega arith
length-pairs_of (prf ∷ ps) slots = omega (
  arith,
  length-append (map (λ (s : Slot). (prf, s)) slots) (pairs_of ps slots),
  length-map {B = Prf × Slot} slots (λ (s : Slot). (prf, s)),
  length-pairs_of ps slots,
)

module _ (c : Primitives) (schemes : List EncryptionScheme) (key_len : ℕ)
    (secret : UnlockSecret) where
  abbrev Try : Prf × Slot → VcResult SchemeOutcome
  Try (prf, slot) = attempt c schemes key_len secret prf slot

  -- An attempt that found nothing at all, or nothing that opens.
  abbrev pub Misses : Prf × Slot → Type 0
  Misses a = (Try a ≡ ok miss)

  abbrev pub PassesOn : Prf × Slot → Type 0
  PassesOn a = (Try a ≡ ok miss) ⊎ ((e : VcError) × (Try a ≡ ok (finding e)))

  -- The first attempt that does not pass on succeeds with this header.
  abbrev pub LeadsTo : FoundHeader → List (Prf × Slot) → Type 0
  LeadsTo f [] = ⊥
  LeadsTo f ((prf, slot) ∷ l) =
      ((Try (prf, slot) ≡ ok (found f.header f.scheme)) × (prf ≡ f.prf))
      ⊎ (PassesOn (prf, slot) × LeadsTo f l)

  same_found :
      (h : VolumeHeader) (s : EncryptionScheme) (prf : Prf) (f : FoundHeader)
      → h ≡ f.header
      → s ≡ f.scheme
      → prf ≡ f.prf
      → ◌≡◌ {A = VcResult FoundHeader} (ok (record { header = h; scheme = s; prf = prf })) (ok f)
  same_found h s prf f a b e = λ i. ok (record { header = a i; scheme = b i; prf = e i })

  -- One attempt, with what the rest of the pass answers given.
  settle-LeadsTo :
      (f : FoundHeader) (prf : Prf) (slot : Slot) (l : List (Prf × Slot)) (p : Progress)
      (k : Progress → Sweep)
      → ((q : Progress) → ((finish (k q)).0 ≡ ok f) ↔ LeadsTo f l)
      → (r : VcResult SchemeOutcome) → Try (prf, slot) ≡ r
      → ((finish (and_then (settle prf r p) k)).0 ≡ ok f) ↔ LeadsTo f ((prf, slot) ∷ l)
  settle-LeadsTo f prf slot l p k ih (err x) e =
      (λ h. cc, elim [ inl a ↦ cc (a.0) | inr (inl a, b) ↦ cc | inr (inr (y, a), b) ↦ cc ])
  settle-LeadsTo f prf slot l p k ih (ok (found h s)) e = (
    λ g. inl (
      e ∙ ap (λ (t : FoundHeader). ok (found t.header t.scheme)) (ok_injective g),
      ap (λ (t : FoundHeader). t.prf) (ok_injective g),
    ),
    elim [
      | inl a ↦ same_found h s prf f (cc (a.0)) (cc (a.0)) a.1
      | inr (inl a, b) ↦ cc
      | inr (inr (y, a), b) ↦ cc
    ],
  )
  settle-LeadsTo f prf slot l p k ih (ok (finding x)) e = (
    λ g. inr (inr (x, e), (ih (record p { best = some x })).0 g),
    elim [ inl a ↦ cc (a.0) | inr a ↦ (ih (record p { best = some x })).1 a.1 ],
  )
  settle-LeadsTo f prf slot l p k ih (ok panicked) e =
      (λ h. cc, elim [ inl a ↦ cc (a.0) | inr (inl a, b) ↦ cc | inr (inr (y, a), b) ↦ cc ])
  settle-LeadsTo f prf slot l p k ih (ok miss) e =
      (λ g. inr (inl e, (ih p).0 g), elim [ inl a ↦ cc (a.0) | inr a ↦ (ih p).1 a.1 ])

  try_pairs-LeadsTo :
      (total : ℕ) (f : FoundHeader) (l : List (Prf × Slot)) (p : Progress)
      → ((finish (try_pairs c schemes key_len secret total l p)).0 ≡ ok f) ↔ LeadsTo f l
  unfolding try_pairs
  try_pairs-LeadsTo total f [] p = (λ e. cc, λ e. absurd e)
  try_pairs-LeadsTo total f ((prf, slot) ∷ l) p =
      settle-LeadsTo f prf slot l (note total prf p)
        (λ q. try_pairs c schemes key_len secret total l q) (try_pairs-LeadsTo total f l)
        (attempt c schemes key_len secret prf slot) refl

  -- The search succeeds exactly when the first attempt, in the order of the pairs, that neither
  -- misses nor makes a mere finding is a success; the answer is that attempt's header, scheme and
  -- PRF. In particular a finding at one slot hides no success that comes later.
  pub search-ok_iff :
      (default : Prf) (others : List Prf) (slots : List Slot) (f : FoundHeader)
      → ((search c schemes key_len secret (default ∷ others) slots).0 ≡ ok f)
        ↔ LeadsTo f (pairs_of (default ∷ others) slots)
  search-ok_iff default others slots f =
      rw (search-try_pairs c schemes key_len secret default others slots)
        (try_pairs-LeadsTo _ f (pairs_of (default ∷ others) slots) start)

  pub try_pairs-Misses :
      (total : ℕ) (l : List (Prf × Slot)) (p : Progress)
      → All Misses l
      → let r = finish (try_pairs c schemes key_len secret total l p) in
        (r.0 ≡ err (best_or p.best))
        × (r.1.step ≡ p.step + length l)
        × (length r.1.log ≡ length p.log + length l)
  unfolding try_pairs
  try_pairs-Misses total [] p m = (refl, omega arith, omega arith)
  try_pairs-Misses total ((prf, slot) ∷ l) p (m, ms) =
      let (a, b, e) = try_pairs-Misses total l (note total prf p) ms in
      rw m (a, omega (arith, b), omega (arith, e))

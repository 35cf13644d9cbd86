-- ===== src/Format/Search/Order.antt =====
-- The order in which core/vc-format/src/lib.rs tries PRFs and slots: its three loops are one pass
-- over all pairs, PRF by PRF.
use mathlib.Core.Path.{fun_ext}
use vault_pony_core.Prelude.{
  ℕ, suc, ◌*◌, ◌≡◌, refl, ap, ap₂, ◌∙◌, List, [], ◌∷◌, ◌++◌, map, length, true, leb, if◌then◌else◌,
  arith,
}
use vault_pony_core.Types.Registry.{EncryptionScheme, Prf}
use vault_pony_core.Crypto.Primitives.{Primitives}
use vault_pony_core.Format.Search.{
  UnlockSecret, Slot, Progress, Sweep, returned, continued, and_then, finish, attempt, note, settle,
  sweep, sweep_prfs, start, sweep_default, search,
}

-- All pairs of a PRF and a slot, PRF by PRF.
abbrev pub pairs_of : List Prf → List Slot → List (Prf × Slot)
pairs_of [] slots = []
pairs_of (prf ∷ ps) slots = map (λ (s : Slot). (prf, s)) slots ++ pairs_of ps slots

one_le : (n : ℕ) → leb 1 (suc n) ≡ true
one_le n = ground arith

and_then_assoc :
    (a : Sweep) (f g : Progress → Sweep)
    → and_then (and_then a f) g ≡ and_then a (λ q. and_then (f q) g)
and_then_assoc (returned r p) f g = refl
and_then_assoc (continued p) f g = refl

and_then_continued : (a : Sweep) → and_then a (λ q. continued q) ≡ a
and_then_continued (returned r p) = refl
and_then_continued (continued p) = refl

module _ (c : Primitives) (schemes : List EncryptionScheme) (key_len : ℕ)
    (secret : UnlockSecret) where
  -- The specification: a single pass over pairs that stops at the first success or at the first
  -- derivation that fails, and keeps the latest finding.
  unfoldable pub try_pairs : ℕ → List (Prf × Slot) → Progress → Sweep
  try_pairs total [] p = continued p
  try_pairs total ((prf, slot) ∷ l) p =
      and_then (settle prf (attempt c schemes key_len secret prf slot) (note total prf p))
        (λ q. try_pairs total l q)

  sweep-try_pairs :
      (total : ℕ) (prf : Prf) (slots : List Slot) (l : List (Prf × Slot)) (p : Progress)
      → and_then (sweep c schemes key_len secret total prf slots p) (λ q. try_pairs total l q)
        ≡ try_pairs total (map (λ (s : Slot). (prf, s)) slots ++ l) p
  unfolding sweep try_pairs
  sweep-try_pairs total prf [] l p = refl
  sweep-try_pairs total prf (slot ∷ slots) l p =
      and_then_assoc (settle prf (attempt c schemes key_len secret prf slot) (note total prf p))
        (λ q. sweep c schemes key_len secret total prf slots q) (λ q. try_pairs total l q)
      ∙ ap (and_then (settle prf (attempt c schemes key_len secret prf slot) (note total prf p)))
          (fun_ext (λ q. sweep-try_pairs total prf slots l q))

  sweep_prfs-try_pairs :
      (total : ℕ) (ps : List Prf) (slots : List Slot) (p : Progress)
      → sweep_prfs c schemes key_len secret total ps slots p ≡ try_pairs total (pairs_of ps slots) p
  unfolding sweep_prfs
  sweep_prfs-try_pairs total [] slots p = unfold try_pairs in refl
  sweep_prfs-try_pairs total (prf ∷ ps) slots p =
      ap (and_then (sweep c schemes key_len secret total prf slots p))
        (fun_ext (λ q. sweep_prfs-try_pairs total ps slots q))
      ∙ sweep-try_pairs total prf slots (pairs_of ps slots) p

  sweep_default-sweep :
      (total : ℕ) (prf : Prf) (slots : List Slot)
      → sweep_default c schemes key_len secret total prf slots
        ≡ sweep c schemes key_len secret total prf slots start
  unfolding sweep_default sweep
  sweep_default-sweep total prf [] = refl
  sweep_default-sweep total prf (slot ∷ []) =
      and_then_continued (sweep c schemes key_len secret total prf (slot ∷ []) start)
  sweep_default-sweep total prf (slot ∷ other ∷ slots) =
      ap
        (λ b. and_then (sweep c schemes key_len secret total prf (slot ∷ []) start) (λ q.
          if b then sweep c schemes key_len secret total prf (other ∷ slots) q else continued q))
        (one_le (length slots))
      ∙ and_then_assoc
          (settle prf (attempt c schemes key_len secret prf slot) (note total prf start))
          (λ q. continued q) (λ q. sweep c schemes key_len secret total prf (other ∷ slots) q)

  -- The search over the slots that were read is one pass over all pairs of a PRF and a slot, PRF by
  -- PRF and within a PRF position by position, whatever the number of slots. Its three loops
  -- neither skip a pair nor try one twice, and stop where the single pass stops.
  pub search-try_pairs :
      (default : Prf) (others : List Prf) (slots : List Slot)
      → search c schemes key_len secret (default ∷ others) slots
        ≡ finish (
            try_pairs
              (length slots * length (default ∷ others))
              (pairs_of (default ∷ others) slots)
              start)
  unfolding search
  search-try_pairs default others slots = ap finish (
      ap₂ and_then (sweep_default-sweep _ default slots)
        (fun_ext (λ q. sweep_prfs-try_pairs _ others slots q))
      ∙ sweep-try_pairs _ default slots (pairs_of others slots) start)

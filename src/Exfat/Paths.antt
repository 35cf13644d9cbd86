-- ===== src/Exfat/Paths.antt =====
-- The paths of core/norse-exfat/src/lib.rs and src/write.rs: `split('/')` without the empty
-- components, `trim_end_matches('/')` and `rsplit_once('/')` on the UTF-16 units of a text.
use vault_pony_core.Prelude.{
  ℕ, Bool, true, false, Option, none, some, List, [], ◌∷◌, ◌++◌, ◌==◌, ◌&&◌, if◌then◌else◌,
}

abbrev pub slash : ℕ
slash = 47

abbrev pub is_nil : {A : Type 0} → List A → Bool
is_nil [] = true
is_nil (x ∷ xs) = false

-- The component that has begun, and the rest of the path.
split_from : List ℕ → List ℕ → List (List ℕ)
split_from part [] = if is_nil part then [] else part ∷ []
split_from part (u ∷ us) =
    let fresh = split_from [] us in
    let more = split_from (part ++ u ∷ []) us in
    if u == slash then (if is_nil part then fresh else part ∷ fresh) else more

pub components : List ℕ → List (List ℕ)
unfolding split_from
components = split_from []

pub trim_end : List ℕ → List ℕ
trim_end [] = []
trim_end (u ∷ us) = let rest = trim_end us in if u == slash && is_nil rest then [] else u ∷ rest

pub rsplit_once : List ℕ → Option (List ℕ × List ℕ)
rsplit_once [] = none
rsplit_once (u ∷ us) = elim (rsplit_once us) [
  | some (p, l) ↦ some (u ∷ p, l)
  | none ↦ if u == slash then some ([], us) else none
]

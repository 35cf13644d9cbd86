-- ===== src/Exfat/Fat/Chain.antt =====
-- Chains of clusters in the bytes of a disk, and `read_chain` of core/norse-exfat/src/fat.rs, which
-- finds exactly those that are not too long.
use vault_pony_core.Prelude.{
  ℕ, zero, suc, ◌+◌, ◌*◌, ◌≤◌, ◌<◌, ◌≡◌, ◌≢◌, ◌↔◌, refl, sym, ap, ◌∙◌, ◌⊎◌, inl, inr, Bool, true,
  false, none, List, [], ◌∷◌, ◌==◌, if◌then◌else◌, length, Bool-cases, arith,
}
use vault_pony_core.Prelude.Slices.{slice}
use vault_pony_core.Prelude.Bytes.{le32_at}
use vault_pony_core.Prelude.Words.{u64_mod}
use vault_pony_core.Prelude.Results.{
  ok, err, pure, fail, ◌>>=◌, bind_ok, bind_err, ok_injective, Result-cases,
}
use vault_pony_core.Device.Store.{IsStore}
use vault_pony_core.Device.Runs.{
  Runs, Stored, Runs-bind, Runs-guard, Runs-refuse, Runs-stop, Runs-lift, Runs-read,
}
use vault_pony_core.Exfat.Error.{Disk, X, ExfatError, invalid}
use vault_pony_core.Exfat.Runs.{Runs-try_io}
use vault_pony_core.Exfat.Sector.{Geometry, in_range}
use vault_pony_core.Exfat.Fat.{
  end_of_chain, bad_cluster, fat_offset, fat_entry, chain_from, read_chain,
}

-- The disk holds the table for all clusters, whose numbers stay below the marks.
pub record HasFat (g : Geometry) (xs : List ℕ) : Type 0 where
  pub fits : g.bytes_per_sector * g.fat_offset_sectors + (g.cluster_count + 2) * 4 ≤ length xs
  pub small : length xs < u64_mod
  pub clusters : g.cluster_count + 2 ≤ bad_cluster

-- The entry of a cluster.
abbrev pub fat_word : Geometry → List ℕ → ℕ → ℕ
fat_word g xs c = le32_at (slice (fat_offset g c) 4 xs) 0

-- From a cluster along the table to the mark of the end.
pub data Chain (g : Geometry) (xs : List ℕ) : ℕ → List ℕ → Type 0 where
  last : (c : ℕ) → in_range g c ≡ true → fat_word g xs c ≡ end_of_chain → Chain g xs c (c ∷ [])
  next :
      (c : ℕ) (cs : List ℕ)
      → in_range g c ≡ true
      → fat_word g xs c ≢ end_of_chain
      → fat_word g xs c ≢ bad_cluster
      → Chain g xs (fat_word g xs c) cs
      → Chain g xs c (c ∷ cs)

pub fat_offset_lem :
    (g : Geometry) (xs : List ℕ) (c : ℕ)
    → HasFat g xs
    → in_range g c ≡ true
    → (fat_offset g c ≡ g.bytes_per_sector * g.fat_offset_sectors + c * 4)
      × (c < g.cluster_count + 2)
      × (fat_offset g c + 4 ≤ length xs)
fat_offset_lem g xs c f r =
    let under : c < g.cluster_count + 2 = ground (arith, f.clusters) in
    let at : fat_offset g c ≡ g.bytes_per_sector * g.fat_offset_sectors + c * 4 =
      omega (arith, f.fits, f.small, under) in
    (at, under, omega (arith, at, under, f.fits))

-- What the tests of one round leave, once a chain is returned.
round_cases :
    {S : Type 0} (b b' : Bool) (x : ExfatError) (c : ℕ) (m : X S (List ℕ)) (s : S) (cs : List ℕ)
    → ((if b
          then pure {E = ExfatError} {S = S} (c ∷ [])
          else if b'
          then fail x
          else m >>= λ rest. pure (c ∷ rest))
        s).0
      ≡ ok cs
    → ((b ≡ true) × (c ∷ [] ≡ cs))
      ⊎ ((b ≡ false) × (b' ≡ false) × ((rest : List ℕ) × ((m s).0 ≡ ok rest) × (c ∷ rest ≡ cs)))
round_cases true b' x c m s cs e = inl (refl, ok_injective e)
round_cases false true x c m s cs e = absurd (cc)
round_cases false false x c m s cs e = elim (Result-cases (m s).0) [
  | inl (rest, v) ↦ inr (
    refl,
    refl,
    (rest, v, ok_injective (sym (ap (λ p. p.0) (bind_ok m (λ rest. pure (c ∷ rest)) s v)) ∙ e)),
  )
  | inr (y, v) ↦ let stop = ap (λ p. p.0) (bind_err m (λ rest. pure (c ∷ rest)) s v) in absurd (cc)
]

module _ (d : Disk) (store : IsStore d) (g : Geometry) (xs : List ℕ) (f : HasFat g xs) where
  abbrev At : List ℕ → d.State → Type 0
  At = Stored d store

  fat_entry-in :
      (c : ℕ) → in_range g c ≡ true → Runs At (fat_entry d g c) xs (ok (fat_word g xs c)) xs
  unfolding fat_entry
  fat_entry-in c r = Runs-guard At (in_range g c) _ _ r (
      Runs-bind At _ _
        (Runs-try_io At _ (Runs-read d store (fat_offset g c) 4 xs (fat_offset_lem g xs c f r).2))
        (Runs-lift At _ xs))

  -- A chain that there is room for is read.
  chain_from_complete :
      (room c : ℕ) (cs : List ℕ)
      → Chain g xs c cs
      → length cs ≤ room
      → Runs At (chain_from d g false room c) xs (ok cs) xs
  unfolding chain_from
  chain_from_complete zero c cs (last _ r e) h = absurd (omega arith)
  chain_from_complete zero c cs (next _ ds r ne nb t) h = absurd (omega arith)
  chain_from_complete (suc room) c cs (last _ r e) h = Runs-bind At _ _ (fat_entry-in c r) (
      let is_end : (fat_word g xs c == end_of_chain) ≡ true = ground (arith, e) in
      rw is_end (Runs-lift At _ xs))
  chain_from_complete (suc room) c cs (next _ ds r ne nb t) h =
      Runs-bind At _ _ (fat_entry-in c r) (
        let on : (fat_word g xs c == end_of_chain) ≡ false = ground (arith, ne) in
        let good : (fat_word g xs c == bad_cluster) ≡ false = ground (arith, nb) in
        rw (on, good)
          (Runs-bind At _ _ (chain_from_complete room (fat_word g xs c) ds t (omega arith))
            (Runs-lift At _ xs)))

  -- Whether a cluster has an entry.
  fat_entry-out :
      (c : ℕ)
      → in_range g c ≡ false
      → Runs At (fat_entry d g c) xs (err (invalid "FAT index out of range")) xs
  unfolding fat_entry
  fat_entry-out c r = Runs-refuse At (in_range g c) _ _ r

  -- What is read is a chain.
  chain_from_sound :
      (room c : ℕ) (cs : List ℕ) (s : d.State)
      → At xs s
      → (chain_from d g false room c s).0 ≡ ok cs
      → Chain g xs c cs × (length cs ≤ room)
  unfolding chain_from
  chain_from_sound zero c cs s p e = absurd (cc)
  chain_from_sound (suc room) c cs s p e = elim (Bool-cases (in_range g c)) [
    | inl r ↦
        let (value, q) = fat_entry-in c r s p in
        let word = fat_word g xs c in
        elim (round_cases (word == end_of_chain) (word == bad_cluster) _ c
          (chain_from d g false room word) (fat_entry d g c s).1 cs
          (sym (ap (λ t. t.0) (bind_ok (fat_entry d g c) _ s value)) ∙ e)) [
            | inl (is_end, made) ↦ rw (sym made) (last c r (ground arith), omega arith)
            | inr (on, good, (rest, run, made)) ↦
                let (t, size) = chain_from_sound room word rest (fat_entry d g c s).1 q run in
                rw (sym made) (next c rest r (ground arith) (ground arith) t, omega arith)
          ]
    | inr r ↦
        let stop : (chain_from d g false (suc room) c s).0
            ≡ err (invalid "FAT index out of range") =
          (Runs-stop At (fat_entry d g c) _ (fat_entry-out c r) s p).0 in
        absurd (cc)
  ]

  -- Reading a chain whose length is not known returns clusters exactly if they are a chain along the
  -- table from the first cluster to the mark of the end and are no more than the volume has. The disk
  -- stores bytes and holds the table.
  pub read_chain-Chain :
      (first : ℕ) (cs : List ℕ) (s : d.State)
      → At xs s
      → ((read_chain d g first none s).0 ≡ ok cs)
        ↔ (Chain g xs first cs × (length cs ≤ g.cluster_count))
  unfolding read_chain
  read_chain-Chain first cs s p = (
    chain_from_sound g.cluster_count first cs s p,
    λ h. (chain_from_complete g.cluster_count first cs h.0 h.1 s p).0,
  )

  pub read_chain-Runs :
      (first : ℕ) (cs : List ℕ)
      → Chain g xs first cs
      → length cs ≤ g.cluster_count
      → Runs At (read_chain d g first none) xs (ok cs) xs
  unfolding read_chain
  read_chain-Runs first cs t h = chain_from_complete g.cluster_count first cs t h

-- ===== src/Exfat/Alloc/Link.antt =====
-- A chain that core/norse-exfat/src/alloc.rs links is the one that src/fat.rs reads.
use vault_pony_core.Prelude.{
  ℕ, ◌^◌, ◌≤◌, ◌<◌, ◌≡◌, ◌≢◌, refl, sym, ap, subst, ◌∙◌, true, none, List, [], ◌∷◌, length, All,
  arith,
}
use vault_pony_core.Prelude.Slices.{splice, slice-splice_self, slice-splice_apart, length-splice}
use vault_pony_core.Prelude.Bytes.{le32_bytes, le32_at, from_be32_bytes}
use vault_pony_core.Prelude.Results.{ok, ◌>>◌}
use vault_pony_core.Device.Store.{IsStore}
use vault_pony_core.Device.Runs.{Runs, Stored, Runs-then, Runs-guard, Runs-write}
use vault_pony_core.Exfat.Error.{Disk}
use vault_pony_core.Exfat.Runs.{Runs-try_io}
use vault_pony_core.Exfat.Sector.{Geometry, in_range}
use vault_pony_core.Exfat.Fat.{end_of_chain, fat_offset, read_chain}
use vault_pony_core.Exfat.Fat.Chain.{
  HasFat, fat_word, Chain, last, next, fat_offset_lem, read_chain-Runs,
}
use vault_pony_core.Exfat.Alloc.{set_fat, link}

-- A cluster that is none of these, and clusters of which none comes twice.
abbrev NotIn : ℕ → List ℕ → Type 0
NotIn k cs = All (λ c. k ≢ c) cs

abbrev pub Distinct : List ℕ → Type 0
Distinct [] = Unit {0}
Distinct (c ∷ cs) = NotIn c cs × Distinct cs

module _ (g : Geometry) where
  abbrev pub InRange : List ℕ → Type 0
  InRange cs = All (λ c. in_range g c ≡ true) cs

  -- The table with one entry written.
  abbrev put : ℕ → ℕ → List ℕ → List ℕ
  put c v xs = splice (fat_offset g c) (le32_bytes v) xs

  length-put :
      (c v : ℕ) (xs : List ℕ) → HasFat g xs → in_range g c ≡ true → length (put c v xs) ≡ length xs
  length-put c v xs f r =
      length-splice (fat_offset g c) (le32_bytes v) xs (fat_offset_lem g xs c f r).2

  HasFat-size : (xs ys : List ℕ) → length ys ≡ length xs → HasFat g xs → HasFat g ys
  HasFat-size xs ys e f = record {
    fits = omega (arith, e, f.fits);
    small = omega (arith, e, f.small);
    clusters = f.clusters;
  }

  fat_word-put :
      (c v : ℕ) (xs : List ℕ)
      → HasFat g xs
      → in_range g c ≡ true
      → v < 2 ^ 32
      → fat_word g (put c v xs) c ≡ v
  fat_word-put c v xs f r h =
      ap (λ b. le32_at b 0)
        (slice-splice_self (fat_offset g c) 4 (le32_bytes v) xs (fat_offset_lem g xs c f r).2 refl)
      ∙ from_be32_bytes v h

  fat_word-put_other :
      (k c v : ℕ) (xs : List ℕ)
      → HasFat g xs
      → in_range g k ≡ true
      → in_range g c ≡ true
      → k ≢ c
      → fat_word g (put c v xs) k ≡ fat_word g xs k
  fat_word-put_other k c v xs f rk rc ne =
      let (ek, uk, fk) = fat_offset_lem g xs k f rk in
      let (ec, uc, fc) = fat_offset_lem g xs c f rc in
      ap (λ b. le32_at b 0)
        (slice-splice_apart (fat_offset g k) 4 (fat_offset g c) (le32_bytes v) xs fc
          (omega (arith, ek, ec, ne)))

module _ (d : Disk) (store : IsStore d) (g : Geometry) where
  abbrev At : List ℕ → d.State → Type 0
  At = Stored d store

  set_fat-Runs :
      (c v : ℕ) (xs : List ℕ)
      → HasFat g xs
      → in_range g c ≡ true
      → Runs At (set_fat d g c v) xs (ok tt) (put g c v xs)
  unfolding set_fat
  set_fat-Runs c v xs f r = Runs-guard At (in_range g c) _ _ r (
      Runs-try_io At _
        (Runs-write d store (fat_offset g c) (le32_bytes v) xs (fat_offset_lem g xs c f r).2))

  -- What linking these clusters leaves: the chain, and the entries of all others as they were.
  record Linked (c : ℕ) (cs xs : List ℕ) : Type 0 where
    after : List ℕ
    size : length after ≡ length xs
    runs : Runs At (link d g (c ∷ cs)) xs (ok tt) after
    chain : Chain g after c (c ∷ cs)
    kept : (k : ℕ) → in_range g k ≡ true → NotIn k (c ∷ cs) → fat_word g after k ≡ fat_word g xs k

  link-Linked :
      (c : ℕ) (cs xs : List ℕ)
      → HasFat g xs
      → InRange g (c ∷ cs)
      → Distinct (c ∷ cs)
      → Linked c cs xs
  unfolding link
  link-Linked c [] xs f (r, rs) ds = record {
    after = put g c end_of_chain xs;
    size = length-put g c end_of_chain xs f r;
    runs = set_fat-Runs c end_of_chain xs f r;
    chain = last c r (fat_word-put g c end_of_chain xs f r (omega arith));
    kept = λ k rk n. fat_word-put_other g k c end_of_chain xs f rk r n.0;
  }
  link-Linked c (c' ∷ cs) xs f (r, rs) (out, ds) =
      let under = (fat_offset_lem g xs c' f rs.0).1 in
      let size = length-put g c c' xs f r in
      let f' = HasFat-size g xs (put g c c' xs) size f in
      let l = link-Linked c' cs (put g c c' xs) f' rs ds in
      let word : fat_word g l.after c ≡ c' =
        l.kept c r out ∙ fat_word-put g c c' xs f r (omega (arith, under, f.clusters)) in
      record {
        after = l.after;
        size = l.size ∙ size;
        runs = Runs-then At (set_fat d g c c') _ (set_fat-Runs c c' xs f r) l.runs;
        chain =
            next c (c' ∷ cs) r (omega (arith, word, under, f.clusters))
              (omega (arith, word, under, f.clusters))
              (subst (λ n. Chain g l.after n (c' ∷ cs)) (sym word) l.chain);
        kept = λ k rk n. l.kept k rk n.1 ∙ fat_word-put_other g k c c' xs f rk r n.0;
      }

  -- Clusters of the volume, none twice and no more than there are, that are linked in an order are read
  -- back in that order from the first on; the disk stays as long as it was. The disk stores bytes and
  -- holds the table.
  pub read_chain-link :
      (c : ℕ) (cs xs : List ℕ)
      → HasFat g xs
      → InRange g (c ∷ cs)
      → Distinct (c ∷ cs)
      → length (c ∷ cs) ≤ g.cluster_count
      → (ys : List ℕ) × (length ys ≡ length xs)
        × Runs At (link d g (c ∷ cs) >> read_chain d g c none) xs (ok (c ∷ cs)) ys
  read_chain-link c cs xs f r ds h =
      let l = link-Linked c cs xs f r ds in
      (
        l.after,
        l.size,
        Runs-then At (link d g (c ∷ cs)) (read_chain d g c none) l.runs (
            read_chain-Runs d store g l.after (HasFat-size g xs l.after l.size f) c (c ∷ cs) l.chain
              h),
      )

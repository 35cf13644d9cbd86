-- ===== src/Exfat/Alloc/Free.antt =====
-- The search of core/norse-exfat/src/alloc.rs for a free cluster, on the bits of the disk.
use vault_pony_core.Prelude.{
  ℕ, zero, suc, ◌+◌, ◌-◌, ◌*◌, ◌/◌, ◌%◌, ◌^◌, ◌≤◌, ◌<◌, ◌≡◌, ap, subst, ◌∙◌, ◌⊎◌, inl, inr, Bool,
  true, false, List, get_or, length, leb, Bool-cases, arith,
}
use native.Mathlib.Nat.{mod-lt, mod-eq_of_lt, add-mod_right}
use native.Mathlib.Decide.{dec_le}
use vault_pony_core.Prelude.Slices.{slice}
use vault_pony_core.Prelude.Words.{add32, sub32, add64, u64_mod}
use vault_pony_core.Prelude.Results.{ok}
use vault_pony_core.Device.Store.{IsStore}
use vault_pony_core.Device.Runs.{Runs, Stored, Runs-lift, Runs-bind, Runs-value, Runs-read}
use vault_pony_core.Exfat.Error.{Disk}
use vault_pony_core.Exfat.Runs.{Runs-try_io}
use vault_pony_core.Exfat.Sector.{Geometry, cluster_offset}
use vault_pony_core.Exfat.Alloc.{
  BitmapLoc, bit_of, test_bit, bitmap_byte_offset, is_allocated, find_free_from, find_free,
}

-- The disk holds a bitmap that has a bit for each cluster, at `start`.
pub record HasBitmap (g : Geometry) (bm : BitmapLoc) (start : ℕ) (xs : List ℕ) : Type 0 where
  pub at : cluster_offset g bm.first_cluster ≡ ok start
  pub enough : g.cluster_count ≤ 8 * bm.length_bytes
  pub fits : start + bm.length_bytes ≤ length xs
  pub small : length xs < u64_mod
  pub clusters : g.cluster_count ≤ 2 ^ 31

-- The bit of a cluster.
abbrev pub bit : ℕ → List ℕ → ℕ → Bool
bit start xs c = test_bit (get_or (slice (start + (c - 2) / 8) 1 xs) 0 0) (bit_of c)

-- The cluster of a round.
abbrev probe : Geometry → (hint j : ℕ) → ℕ
probe g hint j = add32 2 (add32 (sub32 hint 2) j % g.cluster_count)

module _ (d : Disk) (store : IsStore d) (g : Geometry) (bm : BitmapLoc) (start : ℕ) (xs : List ℕ)
    (h : HasBitmap g bm start xs) where
  abbrev At : List ℕ → d.State → Type 0
  At = Stored d store

  bitmap_byte_offset_lem :
      (c : ℕ)
      → 2 ≤ c
      → c < g.cluster_count + 2
      → (bitmap_byte_offset d g bm c ≡ ok (start + (c - 2) / 8))
        × (start + (c - 2) / 8 + 1 ≤ length xs)
  unfolding bitmap_byte_offset
  bitmap_byte_offset_lem c lo hi =
      let plain : sub32 c 2 ≡ c - 2 = omega (arith, h.clusters) in
      let within : leb bm.length_bytes (sub32 c 2 / 8) ≡ false = ground (arith, plain, h.enough) in
      let whole : add64 start (sub32 c 2 / 8) ≡ start + (c - 2) / 8 =
        omega (arith, plain, h.enough, h.fits, h.small) in
      (rw (within, h.at, whole), omega (arith, h.enough, h.fits))

  is_allocated-Runs :
      (c : ℕ)
      → 2 ≤ c
      → c < g.cluster_count + 2
      → Runs At (is_allocated d g bm c) xs (ok (bit start xs c)) xs
  unfolding is_allocated
  is_allocated-Runs c lo hi =
      let (off, fits) = bitmap_byte_offset_lem c lo hi in
      Runs-value At (bitmap_byte_offset d g bm c) _ off (
        Runs-bind At _ _ (Runs-try_io At _ (Runs-read d store (start + (c - 2) / 8) 1 xs fits))
          (Runs-lift At _ xs))

  -- What the rounds from `i` on have: a free cluster, or none among those they looked at.
  abbrev Outcome : (hint i left : ℕ) → Type 0
  Outcome hint i left =
      ((c : ℕ) × (2 ≤ c)
        × (c < g.cluster_count + 2)
        × (bit start xs c ≡ false)
        × Runs At (find_free_from d g bm hint i left) xs (ok c) xs)
      ⊎ ((j : ℕ) → i ≤ j → j < i + left → bit start xs (probe g hint j) ≡ true)

  find_free_from-Outcome : (hint i left : ℕ) → 1 ≤ g.cluster_count → Outcome hint i left
  unfolding find_free_from
  find_free_from-Outcome hint i zero n = inr (λ j lo hi. absurd (omega arith))
  find_free_from-Outcome hint i (suc left) n =
      let in_mod = mod-lt (add32 (sub32 hint 2) i) {m = g.cluster_count} (omega arith) in
      let c = probe g hint i in
      let lo : 2 ≤ c = omega (arith, in_mod, h.clusters) in
      let hi : c < g.cluster_count + 2 = omega (arith, in_mod, h.clusters) in
      elim (Bool-cases (bit start xs c)) [
        | inr free ↦ inl (
          c,
          lo,
          hi,
          free,
          Runs-bind At _ _ (is_allocated-Runs c lo hi) (rw free (Runs-lift At (ok c) xs)),
        )
        | inl taken ↦ elim (find_free_from-Outcome hint (i + 1) left n) [
          | inl (k, klo, khi, kfree, run) ↦
              inl (k, klo, khi, kfree, Runs-bind At _ _ (is_allocated-Runs c lo hi) (rw taken run))
          | inr all ↦ inr (λ j jlo jhi. elim (dec_le j i) [
            | yes same ↦
                let e : i ≡ j = omega arith in
                subst (λ t. bit start xs (probe g hint t) ≡ true) e taken
            | no later ↦ all j (omega arith) (omega arith)
          ])
        ]
      ]

  -- Some round looks at each cluster.
  probe_reaches :
      (hint k : ℕ)
      → 2 ≤ hint
      → hint ≤ g.cluster_count + 2
      → 2 ≤ k
      → k < g.cluster_count + 2
      → (j : ℕ) × (j < g.cluster_count) × (probe g hint j ≡ k)
  probe_reaches hint k hlo hhi klo khi = elim (dec_le hint k) [
    | yes ahead ↦
        let same = mod-eq_of_lt {n = k - 2} {m = g.cluster_count} (omega arith) in
        let sum : add32 (sub32 hint 2) (k - hint) ≡ k - 2 = omega (arith, h.clusters) in
        (
          k - hint,
          omega arith,
          ap (λ t. add32 2 (t % g.cluster_count)) sum
              ∙ ap (add32 2) same
              ∙ omega (arith, h.clusters),
        )
    | no behind ↦
        let same = mod-eq_of_lt {n = k - 2} {m = g.cluster_count} (omega arith) in
        let sum : add32 (sub32 hint 2) (g.cluster_count + k - hint) ≡ k - 2 + g.cluster_count =
          omega (arith, h.clusters) in
        (
          g.cluster_count + k - hint,
          omega arith,
          ap (λ t. add32 2 (t % g.cluster_count)) sum
              ∙ ap (add32 2) (add-mod_right (k - 2) g.cluster_count ∙ same)
              ∙ omega (arith, h.clusters),
        )
  ]

  -- If any cluster of the volume is free, the search answers one, whatever the hint: a cluster of the
  -- volume whose bit is clear. The hint is a cluster or the number after the last, the volume has at most
  -- 2 ^ 31 clusters, and the disk stores bytes and holds the bitmap.
  pub find_free_lem :
      (hint k : ℕ)
      → 2 ≤ hint
      → hint ≤ g.cluster_count + 2
      → 2 ≤ k
      → k < g.cluster_count + 2
      → bit start xs k ≡ false
      → (c : ℕ) × (2 ≤ c)
        × (c < g.cluster_count + 2)
        × (bit start xs c ≡ false)
        × Runs At (find_free d g bm hint) xs (ok c) xs
  unfolding find_free
  find_free_lem hint k hlo hhi klo khi free =
      elim (find_free_from-Outcome hint 0 g.cluster_count (omega arith)) [
        | inl found ↦ found
        | inr all ↦
            let (j, under, reached) = probe_reaches hint k hlo hhi klo khi in
            let taken = all j (omega arith) (omega arith) in
            let clash : bit start xs k ≡ true = subst (λ t. bit start xs t ≡ true) reached taken in
            absurd (cc)
      ]

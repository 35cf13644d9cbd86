-- ===== src/Exfat/Ranges/Place.antt =====
-- Where the pieces of a file stand on the disk (core/norse-exfat/src/lib.rs and src/write.rs): inside
-- the disk, and apart from each other.
use vault_pony_core.Prelude.{
  ℕ, zero, suc, ◌+◌, ◌-◌, ◌*◌, ◌/◌, ◌%◌, ◌≤◌, ◌<◌, ◌≡◌, ◌≢◌, refl, sym, ap, ◌∙◌, inl, inr, true,
  List, [], ◌∷◌, map, length, get_or, All, arith,
}
use native.Mathlib.Nat.{div-add-mod', div-lt_iff_lt-mul, mul-le-mul_right}
use native.Mathlib.Decide.{dec_lt}
use vault_pony_core.Prelude.Words.{add64, u64_mod}
use vault_pony_core.Prelude.Results.{ok}
use vault_pony_core.Exfat.Error.{ExfatError, Disk}
use vault_pony_core.Exfat.Sector.{Geometry, cluster_bytes, cluster_offset, in_range}
use vault_pony_core.Exfat.Fat.{bad_cluster}
use vault_pony_core.Exfat.Alloc.Link.{Distinct, InRange}
use vault_pony_core.Exfat.Ranges.{nth, ok_or, piece_offset}
use vault_pony_core.Exfat.Ranges.Cover.{Covers}
use vault_pony_core.Exfat.Ranges.Extents.{Extent, IsApart, Pairwise, Fits, total}

-- The disk holds all clusters.
pub record HasHeap (g : Geometry) (xs : List ℕ) : Type 0 where
  pub fits :
      g.bytes_per_sector * g.cluster_heap_offset_sectors + g.cluster_count * cluster_bytes g
      ≤ length xs
  pub small : length xs < u64_mod
  pub clusters : g.cluster_count + 2 ≤ bad_cluster
  pub roomy : 1 ≤ cluster_bytes g

get_or-InRange :
    (g : Geometry) (chain : List ℕ) (i : ℕ)
    → InRange g chain
    → i < length chain
    → in_range g (get_or chain i 0) ≡ true
get_or-InRange g [] i r h = absurd (omega arith)
get_or-InRange g (c ∷ cs) zero (r, rs) h = r
get_or-InRange g (c ∷ cs) (suc i) (r, rs) h = get_or-InRange g cs i rs (omega arith)

get_or_other :
    (c : ℕ) (cs : List ℕ) (i : ℕ) → All (λ k. c ≢ k) cs → i < length cs → c ≢ get_or cs i 0
get_or_other c [] i n h = absurd (omega arith)
get_or_other c (k ∷ ks) zero (n, ns) h = n
get_or_other c (k ∷ ks) (suc i) (n, ns) h = get_or_other c ks i ns (omega arith)

get_or-Distinct :
    (cs : List ℕ) (i j : ℕ) → Distinct cs → i < j → j < length cs → get_or cs i 0 ≢ get_or cs j 0
get_or-Distinct [] i j ds h k = absurd (omega arith)
get_or-Distinct (c ∷ cs) i zero ds h k = absurd (omega arith)
get_or-Distinct (c ∷ cs) zero (suc j) (n, ds) h k = get_or_other c cs j n (omega arith)
get_or-Distinct (c ∷ cs) (suc i) (suc j) (n, ds) h k =
    get_or-Distinct cs i j ds (omega arith) (omega arith)

nth-get_or :
    (cs : List ℕ) (i : ℕ) (x : ExfatError) → i < length cs → ok_or (nth cs i) x ≡ ok (get_or cs i 0)
nth-get_or [] i x h = absurd (omega arith)
nth-get_or (c ∷ cs) zero x h = refl
nth-get_or (c ∷ cs) (suc i) x h = nth-get_or cs i x (omega arith)

module _ (g : Geometry) (xs : List ℕ) (heap : HasHeap g xs) (chain : List ℕ) (r : InRange g chain)
    (ds : Distinct chain) where
  abbrev pub cb : ℕ
  cb = cluster_bytes g

  abbrev pub base : ℕ
  base = g.bytes_per_sector * g.cluster_heap_offset_sectors

  -- The cluster of a position, and where the position stands.
  abbrev pub at : ℕ → ℕ
  at pos = get_or chain (pos / cb) 0

  abbrev pub place : ℕ → ℕ
  place pos = base + (at pos - 2) * cb + pos % cb

  abbrev pub extents : List (ℕ × ℕ) → List Extent
  extents = map (λ p. (place p.0, p.1))

  -- A piece within one cluster of the chain.
  pub record IsPiece (p : ℕ × ℕ) : Type 0 where
    pub inside : p.0 % cb + p.1 ≤ cb
    pub known : p.0 / cb < length chain
    pub some_bytes : 1 ≤ p.1

  -- Its cluster is one of the volume, and its bytes are on the disk.
  placed :
      (p : ℕ × ℕ)
      → IsPiece p
      → (2 ≤ at p.0) × (at p.0 < g.cluster_count + 2) × (base + (at p.0 - 2) * cb + cb ≤ length xs)
  placed p i =
      let ir = get_or-InRange g chain (p.0 / cb) r i.known in
      let low : 2 ≤ at p.0 = ground (arith, heap.clusters) in
      let high : at p.0 < g.cluster_count + 2 = ground (arith, heap.clusters) in
      let step = mul-le-mul_right {m = at p.0 - 2 + 1} {n = g.cluster_count} cb (omega arith) in
      (low, high, grind (arith, step, heap.fits))

  -- Where the cluster of a piece starts, without a wrap.
  abbrev pub start : ℕ → ℕ
  start pos = base + (at pos - 2) * cb

  pub cluster_offset_lem : (p : ℕ × ℕ) → IsPiece p → cluster_offset g (at p.0) ≡ ok (start p.0)
  unfolding cluster_offset
  cluster_offset_lem p i =
      let ir = get_or-InRange g chain (p.0 / cb) r i.known in
      let (low, high, fits) = placed p i in
      rw ir (ap ok (omega (arith, fits, heap.small, i.inside)))

  pub place_lem : (p : ℕ × ℕ) → IsPiece p → add64 (start p.0) (p.0 % cb) ≡ place p.0
  place_lem p i = let (low, high, fits) = placed p i in omega (arith, fits, heap.small, i.inside)

  pub cluster_lem :
      (p : ℕ × ℕ) (x : ExfatError) → IsPiece p → ok_or (nth chain (p.0 / cb)) x ≡ ok (at p.0)
  cluster_lem p x i = nth-get_or chain (p.0 / cb) x i.known

  pub piece_offset_lem :
      (d : Disk) (p : ℕ × ℕ) (x : ExfatError)
      → IsPiece p
      → piece_offset d g (ok_or (nth chain (p.0 / cb)) x) p.0 ≡ ok (place p.0)
  unfolding piece_offset
  piece_offset_lem d p x i =
      ap (λ c. piece_offset d g c p.0) (cluster_lem p x i)
      ∙ rw (piece_offset, cluster_offset_lem p i) (ap ok (place_lem p i))

  -- Two pieces of which the one ends before the other begins lie apart.
  apart :
      (p q : ℕ × ℕ)
      → IsPiece p
      → IsPiece q
      → p.0 + p.1 ≤ q.0
      → IsApart (place p.0, p.1) (place q.0, q.1)
  apart p q i j h =
      let ep = div-add-mod' p.0 cb in
      let eq = div-add-mod' q.0 cb in
      let (lp, hp, fp) = placed p i in
      let (lq, hq, fq) = placed q j in
      elim (dec_lt (p.0 / cb) (q.0 / cb)) [
        | yes before ↦
            let other = get_or-Distinct chain (p.0 / cb) (q.0 / cb) ds before j.known in
            elim (dec_lt (at p.0) (at q.0)) [
              | yes up ↦
                  let step =
                    mul-le-mul_right {m = at p.0 - 2 + 1} {n = at q.0 - 2} cb (omega arith) in
                  inl (grind (arith, step, i.inside))
              | no down ↦
                  let step =
                    mul-le-mul_right {m = at q.0 - 2 + 1} {n = at p.0 - 2} cb (omega arith) in
                  inr (grind (arith, step, j.inside))
            ]
        | no same ↦ elim (dec_lt (q.0 / cb) (p.0 / cb)) [
          | yes after ↦
              let step = mul-le-mul_right {m = q.0 / cb + 1} {n = p.0 / cb} cb (omega arith) in
              absurd (grind (arith, step, ep, eq, j.inside, j.some_bytes, h))
          | no even ↦
              let e : p.0 / cb ≡ q.0 / cb = omega arith in
              let whole = ap (λ k. k * cb) e in
              let start = ap (λ k. (get_or chain k 0 - 2) * cb) e in
              inl (omega (arith, ep, eq, whole, start, h))
        ]
      ]

  -- Pieces that follow each other are on the disk and lie apart.
  pub record Placed (ps : List (ℕ × ℕ)) (left : ℕ) : Type 0 where
    pub pieces_are : All IsPiece ps
    pub fit : Fits (length xs) (extents ps)
    pub lie_apart : Pairwise (extents ps)
    pub size : total (extents ps) ≡ left

  after-All :
      (p : ℕ × ℕ) (pos left : ℕ) (ps : List (ℕ × ℕ))
      → IsPiece p
      → p.0 + p.1 ≤ pos
      → Covers cb pos left ps
      → pos + left ≤ length chain * cb
      → All (IsApart (place p.0, p.1)) (extents ps)
  after-All p pos left [] i h c b = tt
  after-All p pos left ((q, n) ∷ ps) i h (e, lo, hi, within, rest) b =
      let j : IsPiece (q, n) = record {
        inside = within;
        known =
            (div-lt_iff_lt-mul {k = cb} {x = q} {y = length chain} (omega (arith, heap.roomy))).1
              (omega arith);
        some_bytes = lo;
      } in
      (
        apart p (q, n) i j (omega arith),
        after-All p (pos + n) (left - n) ps i (omega arith) rest (omega arith),
      )

  pub Covers-Placed :
      (pos left : ℕ) (ps : List (ℕ × ℕ))
      → Covers cb pos left ps
      → pos + left ≤ length chain * cb
      → Placed ps left
  Covers-Placed pos left [] c b = record { pieces_are = tt; fit = tt; lie_apart = tt; size = sym c }
  Covers-Placed pos left ((q, n) ∷ ps) (e, lo, hi, within, rest) b =
      let j : IsPiece (q, n) = record {
        inside = within;
        known =
            (div-lt_iff_lt-mul {k = cb} {x = q} {y = length chain} (omega (arith, heap.roomy))).1
              (omega arith);
        some_bytes = lo;
      } in
      let t = Covers-Placed (pos + n) (left - n) ps rest (omega arith) in
      let (low, high, fits) = placed (q, n) j in
      record {
        pieces_are = (j, t.pieces_are);
        fit = (omega (arith, fits, within), t.fit);
        lie_apart = (
          after-All (q, n) (pos + n) (left - n) ps j (omega arith) rest (omega arith),
          t.lie_apart,
        );
        size = omega (arith, t.size);
      }

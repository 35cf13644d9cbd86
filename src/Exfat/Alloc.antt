-- ===== src/Exfat/Alloc.antt =====
-- core/norse-exfat/src/alloc.rs: the allocation bitmap, and chains that are linked and freed.
pub mod Link
pub mod Free
use vault_pony_core.Prelude.{
  ℕ, zero, suc, ◌+◌, ◌-◌, ◌*◌, ◌/◌, ◌%◌, ◌^◌, min, Bool, true, false, not, Option, none, some, List,
  [], ◌∷◌, ltb, leb, ◌==◌, if◌then◌else◌, get_or,
}
use vault_pony_core.Prelude.Bytes.{le32_bytes}
use vault_pony_core.Prelude.Words.{add32, sub32, add64}
use vault_pony_core.Prelude.Results.{Result, ok, err, guard_M, lift, pure, fail, ◌>>=◌, ◌>>◌}
use vault_pony_core.Exfat.Error.{ExfatResult, invalid, Disk, X, try_io}
use vault_pony_core.Exfat.Sector.{Geometry, in_range, cluster_offset}
use vault_pony_core.Exfat.Fat.{end_of_chain, fat_offset, fat_entry}

pub record BitmapLoc : Type 0 where
  pub first_cluster : ℕ
  pub length_bytes : ℕ

-- The bit of a cluster in its byte, and the byte with the bit set or cleared.
abbrev pub bit_of : ℕ → ℕ
bit_of cluster = sub32 cluster 2 % 8

abbrev pub test_bit : ℕ → ℕ → Bool
test_bit b k = b / 2 ^ k % 2 == 1

abbrev pub put_bit : ℕ → ℕ → Bool → ℕ
put_bit b k true = if test_bit b k then b else b + 2 ^ k
put_bit b k false = if test_bit b k then b - 2 ^ k else b

-- `let _ = ...`: the result of a call is dropped.
abbrev pub ignore : {S A : Type 0} → X S A → X S (Unit {0})
ignore m s = (ok tt, (m s).1)

-- `(0..n).map(|i| first + i)`
pub run_of : ℕ → ℕ → List ℕ
run_of first zero = []
run_of first (suc n) = first ∷ run_of (add32 first 1) n

module _ (d : Disk) (g : Geometry) where
  pub set_fat : ℕ → ℕ → X d.State (Unit {0})
  set_fat cluster value = do
    guard_M (in_range g cluster) (invalid "FAT index out of range")
    try_io (d.write_at (fat_offset g cluster) (le32_bytes value))

  -- `for w in chain.windows(2)`, then the last entry.
  pub link : List ℕ → X d.State (Unit {0})
  unfolding set_fat
  link [] = pure tt
  link (c ∷ []) = set_fat c end_of_chain
  link (c ∷ c' ∷ cs) = do set_fat c c'; link (c' ∷ cs)

  -- The walk of `free_chain`, with room for so many more clusters.
  pub walk_chain : ℕ → ℕ → X d.State (List ℕ)
  walk_chain zero cur = fail (invalid "free: chain loop")
  walk_chain (suc room) cur = do
    next ← fat_entry d g cur
    if next == end_of_chain
        then pure (cur ∷ [])
        else if not (in_range g next)
        then pure (cur ∷ [])
        else do rest ← walk_chain room next; pure (cur ∷ rest)

  pub clusters_to_free : ℕ → Option ℕ → X d.State (List ℕ)
  unfolding walk_chain run_of
  clusters_to_free first (some n) = pure (run_of first (min n g.cluster_count % 2 ^ 32))
  clusters_to_free first none = walk_chain g.cluster_count first

  module _ (bm : BitmapLoc) where
    pub bitmap_byte_offset : ℕ → ExfatResult ℕ
    bitmap_byte_offset cluster =
        if leb bm.length_bytes (sub32 cluster 2 / 8)
        then err (invalid "bitmap index out of range")
        else elim (cluster_offset g bm.first_cluster) [
          | ok off ↦ ok (add64 off (sub32 cluster 2 / 8))
          | err e ↦ err e
        ]

    pub is_allocated : ℕ → X d.State Bool
    unfolding bitmap_byte_offset
    is_allocated cluster = do
      off ← lift (bitmap_byte_offset cluster)
      b ← try_io (d.read_at off 1)
      pure (test_bit (get_or b 0 0) (bit_of cluster))

    pub set_bit : ℕ → Bool → X d.State (Unit {0})
    unfolding bitmap_byte_offset
    set_bit cluster allocated = do
      off ← lift (bitmap_byte_offset cluster)
      b ← try_io (d.read_at off 1)
      try_io (d.write_at off (put_bit (get_or b 0 0) (bit_of cluster) allocated ∷ []))

    -- `for i in 0..total`, from round `i` on with so many rounds left.
    pub find_free_from : ℕ → ℕ → ℕ → X d.State ℕ
    unfolding is_allocated
    find_free_from hint i zero = fail (invalid "no free clusters")
    find_free_from hint i (suc left) = do
      let cluster = add32 2 (add32 (sub32 hint 2) i % g.cluster_count)
      taken ← is_allocated cluster
      if taken then find_free_from hint (i + 1) left else pure cluster

    pub find_free : ℕ → X d.State ℕ
    unfolding find_free_from
    find_free hint = find_free_from hint 0 g.cluster_count

    -- The loop that marks so many clusters, from a hint on.
    pub mark_free : ℕ → ℕ → X d.State (List ℕ)
    unfolding find_free set_bit
    mark_free hint zero = pure []
    mark_free hint (suc n) = do
      c ← find_free hint
      set_bit c true
      rest ← mark_free (add32 c 1) n
      pure (c ∷ rest)

    unfoldable pub alloc_chain : ℕ → X d.State (List ℕ)
    unfolding mark_free link
    alloc_chain count = do chain ← mark_free 2 count; link chain; pure chain

    -- The link from the old tail, if anything was added.
    abbrev link_tail : ℕ → List ℕ → X d.State (Unit {0})
    link_tail tail [] = pure tt
    link_tail tail (c ∷ cs) = set_fat tail c

    unfoldable pub extend_chain : ℕ → ℕ → X d.State (List ℕ)
    unfolding set_fat
    extend_chain tail count = do added ← alloc_chain count; link_tail tail added; pure added

    pub free_clusters : List ℕ → X d.State (Unit {0})
    unfolding set_bit set_fat
    free_clusters [] = pure tt
    free_clusters (c ∷ cs) = do set_bit c false; ignore (set_fat c 0); free_clusters cs

    unfoldable pub free_chain : ℕ → Option ℕ → X d.State (Unit {0})
    unfolding clusters_to_free free_clusters
    free_chain first contiguous_len =
        if ltb first 2
        then pure tt
        else do clusters ← clusters_to_free first contiguous_len; free_clusters clusters

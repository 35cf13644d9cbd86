-- ===== src/Exfat/Fat.antt =====
-- core/norse-exfat/src/fat.rs: entries of the file allocation table, and chains of clusters.
pub mod Chain
use vault_pony_core.Prelude.{
  ℕ, zero, suc, ◌+◌, ◌*◌, Bool, true, false, Option, none, some, List, [], ◌∷◌, ◌==◌, if◌then◌else◌,
}
use vault_pony_core.Prelude.Bytes.{le32_at}
use vault_pony_core.Prelude.Words.{add64, mul64}
use vault_pony_core.Prelude.Results.{guard_M, pure, fail, ◌>>=◌, ◌>>◌}
use vault_pony_core.Exfat.Error.{invalid, Disk, X, try_io}
use vault_pony_core.Exfat.Sector.{Geometry, in_range}

abbrev pub end_of_chain : ℕ
end_of_chain = 0xFFFF_FFFF

abbrev pub bad_cluster : ℕ
bad_cluster = 0xFFFF_FFF7

-- Where a cluster's entry stands.
abbrev pub fat_offset : Geometry → ℕ → ℕ
fat_offset g cluster = add64 (mul64 g.bytes_per_sector g.fat_offset_sectors) (mul64 cluster 4)

module _ (d : Disk) (g : Geometry) where
  unfoldable pub fat_entry : ℕ → X d.State ℕ
  fat_entry cluster = do
    guard_M (in_range g cluster) (invalid "FAT index out of range")
    e ← try_io (d.read_at (fat_offset g cluster) 4)
    pure (le32_at e 0)

  -- The loop of `read_chain` with room for so many more clusters. `bounded` says that the caller gave
  -- the length.
  unfoldable pub chain_from : Bool → ℕ → ℕ → X d.State (List ℕ)
  unfolding fat_entry
  chain_from true zero cur = pure []
  chain_from false zero cur = fail (invalid "cluster chain loop")
  chain_from bounded (suc room) cur = do
    next ← fat_entry cur
    if next == end_of_chain
        then pure (cur ∷ [])
        else if next == bad_cluster
        then fail (invalid "chain hits bad cluster")
        else do rest ← chain_from bounded room next; pure (cur ∷ rest)

  unfoldable pub read_chain : ℕ → Option ℕ → X d.State (List ℕ)
  unfolding chain_from
  read_chain first none = chain_from false g.cluster_count first
  read_chain first (some n) = chain_from true n first

-- ===== src/Exfat/Upcase.antt =====
-- core/norse-exfat/src/upcase.rs: the up-case table of a volume. A table is the list of its entries.
pub mod Bound
use vault_pony_core.Prelude.{
  ℕ, zero, suc, ◌+◌, ◌-◌, ◌*◌, ◌/◌, ◌^◌, min, Bool, true, false, not, Option, none, some, List, [],
  ◌∷◌, ◌++◌, map, ltb, leb, ◌==◌, if◌then◌else◌, length, get_or, replicate,
}
use vault_pony_core.Prelude.Bytes.{le16_at}
use vault_pony_core.Prelude.Words.{div_ceil}
use vault_pony_core.Prelude.Results.{ok, err, guard_M, lift, pure, ◌>>=◌, ◌>>◌}
use vault_pony_core.Exfat.Error.{ExfatResult, invalid, Disk, X, try_io}
use vault_pony_core.Exfat.Sector.{Geometry, cluster_bytes, cluster_offset}
use vault_pony_core.Exfat.Fat.{read_chain}

abbrev pub UpcaseTable : Type 0
UpcaseTable = List ℕ

abbrev pub identity : UpcaseTable
identity = []

-- `UpcaseTable::map`: a unit past the table is mapped to itself.
unfoldable pub map_unit : UpcaseTable → ℕ → ℕ
map_unit table u = get_or table u u

-- `chunks_exact(2)` as 16-bit words; a last odd byte is dropped.
unfoldable pub words_of : List ℕ → List ℕ
words_of [] = []
words_of (a ∷ []) = []
words_of (a ∷ b ∷ bs) = le16_at (a ∷ b ∷ []) 0 ∷ words_of bs

-- The identity mappings from code point `cp` on; a code point past 0xFFFF is refused.
unfoldable pub identity_run : ℕ → ℕ → ExfatResult (List ℕ)
identity_run cp zero = ok []
identity_run cp (suc n) =
    let rest = identity_run (cp + 1) n in
    if ltb 0xFFFF cp
    then err (invalid "up-case table overflows u16")
    else elim rest [ ok l ↦ ok (cp ∷ l) | err e ↦ err e ]

-- The loop over the words, with the table so far.
unfoldable pub decompress : List ℕ → List ℕ → ExfatResult UpcaseTable
unfolding identity_run
decompress table [] = ok table
decompress table (w ∷ []) =
    if w == 0xFFFF
    then ok (table ++ 0xFFFF ∷ [])
    else if ltb 0xFFFF (length table)
    then err (invalid "up-case table overflows u16")
    else ok (table ++ w ∷ [])
decompress table (w ∷ count ∷ ws) =
    let literal = decompress (table ++ w ∷ []) (count ∷ ws) in
    if w == 0xFFFF
    then elim (identity_run (length table) count) [
      | ok l ↦ decompress (table ++ l) ws
      | err e ↦ err e
    ]
    else if ltb 0xFFFF (length table)
    then err (invalid "up-case table overflows u16")
    else literal

module _ (d : Disk) (g : Geometry) where
  -- The clusters of the chain, as far as the table reaches; the rest of the buffer stays zero.
  unfoldable pub read_clusters : ℕ → List ℕ → X d.State (List ℕ)
  read_clusters left [] = pure (replicate left 0)
  read_clusters left (c ∷ cs) = if left == 0 then pure [] else do
    off ← lift (cluster_offset g c)
    part ← try_io (d.read_at off (min (cluster_bytes g) left))
    rest ← read_clusters (left - min (cluster_bytes g) left) cs
    pure (part ++ rest)

  unfoldable pub load : ℕ → ℕ → X d.State UpcaseTable
  unfolding read_clusters words_of decompress
  load first_cluster data_len = do
    guard_M (not (ltb (2 * 65536 * 2) data_len)) (invalid "up-case table implausibly large")
    chain ← read_chain d g first_cluster (some (div_ceil data_len (cluster_bytes g)))
    raw ← read_clusters data_len chain
    lift (decompress [] (words_of raw))

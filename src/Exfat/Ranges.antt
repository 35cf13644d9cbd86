-- ===== src/Exfat/Ranges.antt =====
-- The loops of core/norse-exfat/src over the bytes of a file: `read_file` in lib.rs, `write_range` and
-- `zero_range` in write.rs. Where a round starts and how long it is does not depend on the disk, so a
-- loop runs over the list of its pieces.
pub mod Cover
pub mod Extents
pub mod Place
pub mod RoundTrip
use vault_pony_core.Prelude.{
  ℕ, zero, suc, ◌+◌, ◌-◌, ◌*◌, ◌/◌, ◌%◌, ◌^◌, min, Bool, true, false, not, Option, none, some, List,
  [], ◌∷◌, ◌++◌, ltb, leb, ◌==◌, if◌then◌else◌, length, take, drop, replicate,
}
use vault_pony_core.Prelude.Words.{add32, add64, div_ceil}
use vault_pony_core.Prelude.Results.{Result, ok, err, lift, pure, fail, ◌>>=◌, ◌>>◌}
use vault_pony_core.Exfat.Error.{ExfatResult, invalid, Disk, X, try_io}
use vault_pony_core.Exfat.Sector.{Geometry, cluster_bytes, cluster_offset}
use vault_pony_core.Exfat.Fat.{read_chain}
use vault_pony_core.Exfat.Dir.{Entry}

-- The pieces of so many bytes from a position on, each within one cluster of `cb` bytes: position
-- and length. The fuel is at least the number of bytes.
pub pieces : (cb fuel pos left : ℕ) → List (ℕ × ℕ)
pieces cb zero pos left = []
pieces cb (suc fuel) pos left =
    let n = min (cb - pos % cb) left in
    let rest = pieces cb fuel (add64 pos n) (left - n) in if left == 0 then [] else (pos, n) ∷ rest

-- `chain.get(i)`
abbrev pub nth : {A : Type 0} → List A → ℕ → Option A
nth [] i = none
nth (x ∷ xs) zero = some x
nth (x ∷ xs) (suc i) = nth xs i

abbrev pub ok_or : {E A : Type 0} → Option A → E → Result E A
ok_or (some a) e = ok a
ok_or none e = err e

module _ (d : Disk) (g : Geometry) where
  -- The cluster of a file's piece: arithmetic without a chain.
  pub piece_cluster : Entry → Option (List ℕ) → ℕ → ExfatResult ℕ
  piece_cluster e none i = ok (add32 e.first_cluster (i % 2 ^ 32))
  piece_cluster e (some chain) i = ok_or (nth chain i) (invalid "cluster chain shorter than file")

  pub read_pieces : Entry → Option (List ℕ) → List (ℕ × ℕ) → X d.State (List ℕ)
  unfolding piece_cluster
  read_pieces e chain [] = pure []
  read_pieces e chain ((pos, n) ∷ ps) =
      let n_valid = min n (e.valid_size - pos) in
      if leb e.valid_size pos
      then (read_pieces e chain ps >>= λ rest. pure (replicate n 0 ++ rest))
      else do
        cluster ← lift (piece_cluster e chain (pos / cluster_bytes g))
        base ← lift (cluster_offset g cluster)
        part ← try_io (d.read_at (add64 base (pos % cluster_bytes g)) n_valid)
        rest ← read_pieces e chain ps
        pure (part ++ replicate (n - n_valid) 0 ++ rest)

  pub file_chain : Entry → X d.State (Option (List ℕ))
  file_chain e = if e.no_fat_chain then pure none else do
    chain ← read_chain d g e.first_cluster (some (div_ceil e.size (cluster_bytes g)))
    pure (some chain)

  -- The bytes that the first `done` places of the buffer of `n` bytes hold; the rest is not touched.
  unfoldable pub read_file : Entry → (offset n : ℕ) → X d.State (List ℕ)
  unfolding pieces file_chain read_pieces
  read_file e offset n =
      if e.is_dir
      then fail (invalid "read_file on a directory")
      else if leb e.size offset
      then pure []
      else do
        chain ← file_chain e
        let want = min n (e.size - offset)
        read_pieces e chain (pieces (cluster_bytes g) want offset want)

  -- Where a piece of the chain stands on the disk; the message says which loop asks.
  pub piece_offset : ExfatResult ℕ → ℕ → ExfatResult ℕ
  piece_offset (ok cluster) pos = elim (cluster_offset g cluster) [
    | ok base ↦ ok (add64 base (pos % cluster_bytes g))
    | err e ↦ err e
  ]
  piece_offset (err e) pos = err e

  pub write_pieces : List ℕ → List (ℕ × ℕ) → List ℕ → X d.State (Unit {0})
  unfolding piece_offset
  write_pieces chain [] buf = pure tt
  write_pieces chain ((pos, n) ∷ ps) buf = do
    off ←
        lift (
          piece_offset (ok_or (nth chain (pos / cluster_bytes g)) (invalid "write past chain")) pos)
    try_io (d.write_at off (take n buf))
    write_pieces chain ps (drop n buf)

  unfoldable pub write_range : List ℕ → ℕ → List ℕ → X d.State (Unit {0})
  unfolding pieces write_pieces
  write_range chain offset buf =
      write_pieces chain (pieces (cluster_bytes g) (length buf) offset (length buf)) buf

  pub zero_pieces : List ℕ → List (ℕ × ℕ) → X d.State (Unit {0})
  unfolding piece_offset
  zero_pieces chain [] = pure tt
  zero_pieces chain ((pos, n) ∷ ps) = do
    off ←
        lift
          (piece_offset (ok_or (nth chain (pos / cluster_bytes g)) (invalid "zero past chain")) pos)
    try_io (d.write_at off (replicate n 0))
    zero_pieces chain ps

  unfoldable pub zero_range : List ℕ → (offset len : ℕ) → X d.State (Unit {0})
  unfolding pieces zero_pieces
  zero_range chain offset len = zero_pieces chain (pieces (cluster_bytes g) len offset len)

-- ===== src/Exfat/Ranges/RoundTrip.antt =====
-- Bytes that core/norse-exfat/src/write.rs writes into a file's clusters are those that src/lib.rs reads.
use vault_pony_core.Prelude.{
  ℕ, ◌+◌, ◌-◌, ◌*◌, ◌/◌, min, ◌≤◌, ◌<◌, ◌≡◌, ap, subst, false, some, List, [], ◌∷◌, ◌++◌, leb,
  length, take, drop, All, length-drop, length-take, append-nil, arith,
}
use vault_pony_core.Prelude.Slices.{slice, splice}
use vault_pony_core.Prelude.Words.{u64_mod}
use vault_pony_core.Prelude.Results.{ok, ◌>>◌}
use vault_pony_core.Device.Store.{IsStore}
use vault_pony_core.Device.Runs.{
  Runs, Stored, Runs-lift, Runs-bind, Runs-then, Runs-value, Runs-read, Runs-write,
}
use vault_pony_core.Exfat.Error.{Disk, invalid}
use vault_pony_core.Exfat.Runs.{Runs-try_io}
use vault_pony_core.Exfat.Sector.{Geometry, cluster_bytes}
use vault_pony_core.Exfat.Dir.{Entry}
use vault_pony_core.Exfat.Alloc.Link.{Distinct, InRange}
use vault_pony_core.Exfat.Ranges.{
  pieces, nth, ok_or, piece_offset, read_pieces, write_pieces, write_range,
}
use vault_pony_core.Exfat.Ranges.Cover.{Covers, pieces-Covers}
use vault_pony_core.Exfat.Ranges.Extents.{
  Extent, Fits, total, put_all, get_all, get_all-put_all, length-put_one, Fits-size, length-put_all,
}
use vault_pony_core.Exfat.Ranges.Place.{
  HasHeap, IsPiece, extents, place, piece_offset_lem, cluster_lem, cluster_offset_lem, place_lem,
  Covers-Placed,
}

module _ (d : Disk) (store : IsStore d) (g : Geometry) (chain : List ℕ) (r : InRange g chain)
    (ds : Distinct chain) where
  abbrev At : List ℕ → d.State → Type 0
  At = Stored d store

  module _ (o : List ℕ) (heap : HasHeap g o) where
    abbrev locs : List (ℕ × ℕ) → List Extent
    locs = extents g o heap chain r ds

    -- The loop of `write_range` puts the buffer into the extents.
    write_pieces-Runs :
        (ps : List (ℕ × ℕ)) (buf xs : List ℕ)
        → All (IsPiece g o heap chain r ds) ps
        → Fits (length xs) (locs ps)
        → total (locs ps) ≤ length buf
        → Runs At (write_pieces d g chain ps buf) xs (ok tt) (put_all (locs ps) buf xs)
    unfolding write_pieces
    write_pieces-Runs [] buf xs is fs h = Runs-lift At (ok tt) xs
    write_pieces-Runs (p ∷ ps) buf xs (i, is) (f, fs) h =
        let l : Extent = (place g o heap chain r ds p.0, p.1) in
        let size = length-put_one l (total (locs ps)) buf xs h f in
        Runs-value At
          (piece_offset d g (ok_or (nth chain (p.0 / cluster_bytes g)) (invalid "write past chain"))
            p.0)
          _ (piece_offset_lem g o heap chain r ds d p (invalid "write past chain") i)
          (Runs-then At _ _
            (Runs-try_io At _
              (Runs-write d store l.0 (take p.1 buf) xs (omega (arith, length-take p.1 buf))))
            (write_pieces-Runs ps (drop p.1 buf) (splice l.0 (take p.1 buf) xs) is
              (Fits-size (locs ps) _ (length xs) size fs) (omega (arith, length-drop p.1 buf))))

    -- The loop of `read_file` gathers the bytes of the extents, as far as they are valid.
    read_pieces-Runs :
        (e : Entry) (ps : List (ℕ × ℕ)) (xs : List ℕ)
        → All (IsPiece g o heap chain r ds) ps
        → All (λ p. p.0 + p.1 ≤ e.valid_size) ps
        → Fits (length xs) (locs ps)
        → Runs At (read_pieces d g e (some chain) ps) xs (ok (get_all (locs ps) xs)) xs
    unfolding read_pieces
    read_pieces-Runs e [] xs is vs fs = Runs-lift At (ok []) xs
    read_pieces-Runs e (p ∷ ps) xs (i, is) (v, vs) (f, fs) =
        let bytes = i.some_bytes in
        let valid : leb e.valid_size p.0 ≡ false = ground arith in
        let all_of : min p.1 (e.valid_size - p.0) ≡ p.1 = omega arith in
        let none_left : p.1 - p.1 ≡ 0 = omega arith in
        rw (valid, all_of, none_left)
          (Runs-value At _ _
            (cluster_lem g o heap chain r ds p (invalid "cluster chain shorter than file") i)
            (Runs-value At _ _ (cluster_offset_lem g o heap chain r ds p i) (
              rw (place_lem g o heap chain r ds p i) (
                Runs-bind At _ _
                  (Runs-try_io At _ (Runs-read d store (place g o heap chain r ds p.0) p.1 xs f))
                  (Runs-bind At _ _ (read_pieces-Runs e ps xs is vs fs) (λ s q. (
                    ap (λ t. ok (t ++ get_all (locs ps) xs))
                        (append-nil (slice (place g o heap chain r ds p.0) p.1 xs)),
                    q,
                  )))))))

  Covers-valid :
      (cb pos left valid : ℕ) (ps : List (ℕ × ℕ))
      → Covers cb pos left ps
      → pos + left ≤ valid
      → All (λ p. p.0 + p.1 ≤ valid) ps
  Covers-valid cb pos left valid [] c h = tt
  Covers-valid cb pos left valid (p ∷ ps) (e, lo, hi, within, rest) h =
      (omega arith, Covers-valid cb (pos + p.1) (left - p.1) valid ps rest (omega arith))

  -- Bytes that are written at an offset into a file's chain of clusters are what the reading loop of
  -- `read_file` gathers there, at any offset, whether or not they cross clusters; the disk stays as long
  -- as it was. The chain consists of different clusters of the volume and is long enough, the bytes count
  -- as valid, and the disk stores bytes and holds all clusters.
  pub read_pieces-write_range :
      (e : Entry) (offset : ℕ) (buf xs : List ℕ)
      → HasHeap g xs
      → offset + length buf ≤ length chain * cluster_bytes g
      → offset + length buf ≤ e.valid_size
      → e.valid_size < u64_mod
      → (ys : List ℕ) × (length ys ≡ length xs)
        × Runs At
            (write_range d g chain offset buf
              >> read_pieces d g e
                  (some chain)
                  (pieces (cluster_bytes g) (length buf) offset (length buf)))
            xs
            (ok buf)
            ys
  unfolding write_range
  read_pieces-write_range e offset buf xs heap fits valid small =
      let ps = pieces (cluster_bytes g) (length buf) offset (length buf) in
      let c =
        pieces-Covers (cluster_bytes g) (length buf) offset (length buf) heap.roomy (omega arith)
          (omega arith) in
      let t = Covers-Placed g xs heap chain r ds offset (length buf) ps c fits in
      let ls = locs xs heap ps in
      let kept = length-put_all ls buf xs t.fit (omega (arith, t.size)) in
      (
        put_all ls buf xs,
        kept,
        Runs-then At _ _
            (write_pieces-Runs xs heap ps buf xs t.pieces_are t.fit (omega (arith, t.size)))
            (subst
              (λ y.
                Runs At (read_pieces d g e (some chain) ps) (put_all ls buf xs) (ok y)
                  (put_all ls buf xs))
              (get_all-put_all ls buf xs t.lie_apart t.fit t.size)
              (read_pieces-Runs xs heap e ps (put_all ls buf xs) t.pieces_are
                (Covers-valid (cluster_bytes g) offset (length buf) e.valid_size ps c valid)
                (Fits-size ls _ (length xs) kept t.fit))),
      )

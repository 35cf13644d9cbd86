-- ===== src/Exfat/Format/Reading.antt =====
-- Reading the clusters of a disk that core/norse-exfat/src/format.rs has written.
use vault_pony_core.Prelude.{
  ℕ, zero, suc, ◌+◌, ◌-◌, ◌*◌, ◌%◌, ◌^◌, min, ◌≤◌, ◌<◌, ◌≡◌, refl, sym, ap, subst, ◌∙◌, inl, inr,
  true, false, none, List, [], ◌∷◌, ◌++◌, length, leb, ltb, not, replicate, ◌==◌, Bool-cases,
  append-nil, take-append, arith,
}
use native.Mathlib.Nat.{div-add-mod', mod-lt}
use vault_pony_core.Prelude.Slices.{slice, slice-slice, slice-slice_append}
use vault_pony_core.Prelude.Words.{div_ceil, add64, mul64}
use vault_pony_core.Prelude.Bytes.{le32_at}
use vault_pony_core.Prelude.Results.{ok, lift, pure, ◌>>=◌}
use vault_pony_core.Device.Store.{IsStore}
use vault_pony_core.Device.Runs.{
  Runs, Stored, Runs-lift, Runs-bind, Runs-guard, Runs-value, Runs-read,
}
use vault_pony_core.Exfat.Error.{Disk, ExfatError}
use vault_pony_core.Exfat.Runs.{Runs-try_io}
use vault_pony_core.Exfat.Sector.{Geometry, in_range, cluster_bytes, cluster_offset}
use vault_pony_core.Exfat.Fat.{
  end_of_chain, bad_cluster, fat_offset, fat_entry, chain_from, read_chain,
}
use vault_pony_core.Exfat.Upcase.{read_clusters, load, words_of, decompress, UpcaseTable}
use vault_pony_core.Exfat.Layout.{
  Layout, bps, bytes_per_cluster, upcase_first, root_first, cluster_off,
}
use vault_pony_core.Exfat.Layout.Bounds.{IsLayout}
use vault_pony_core.Exfat.Format.{fat_bytes}
use vault_pony_core.Exfat.Format.Boot.{geometry_for}
use vault_pony_core.Exfat.Format.Contents.{Contents}
use vault_pony_core.Exfat.Format.Table.{word_of, fat_bytes-Linked}

-- Consecutive clusters.
abbrev pub run : (first n : ℕ) → List ℕ
run first zero = []
run first (suc n) = first ∷ run (first + 1) n

module _ (d : Disk) (store : IsStore d) (l : Layout) (table ys : List ℕ)
    (i : IsLayout (length ys) (length table) l) (small : length ys < 2 ^ 48)
    (c : Contents l table ys) where
  abbrev At : List ℕ → d.State → Type 0
  At = Stored d store

  abbrev g : Geometry
  g = geometry_for l

  pub cluster_size : cluster_bytes g ≡ bytes_per_cluster l
  unfolding cluster_bytes
  cluster_size = omega (arith, i.root_end, small)

  in_range_lem : (k : ℕ) → 2 ≤ k → k ≤ root_first l → in_range g k ≡ true
  in_range_lem k lo hi = ground (arith, i.clusters, i.root_in)

  pub cluster_offset_lem :
      (k : ℕ)
      → 2 ≤ k
      → k ≤ root_first l
      → cluster_off l k ≤ length ys
      → cluster_offset g k ≡ ok (cluster_off l k)
  unfolding cluster_offset
  cluster_offset_lem k lo hi within =
      let whole : add64 (mul64 512 l.heap_offset) (mul64 (k - 2) (bytes_per_cluster l))
          ≡ cluster_off l k =
        omega (arith, within, small) in
      rw (in_range_lem k lo hi, cluster_size, whole) refl

  -- An entry of the table is the word that was built.
  fat_entry_lem :
      (k : ℕ)
      → 2 ≤ k
      → k ≤ root_first l
      → Runs At (fat_entry d g k) ys (ok (word_of (fat_bytes l) k)) ys
  unfolding fat_entry
  fat_entry_lem k lo hi =
      let at : fat_offset g k ≡ l.fat_start * bps + k * 4 =
        omega (arith, i.heads, i.fat_end, i.fat_fits, small) in
      let there : slice (fat_offset g k) 4 ys ≡ slice (k * 4) 4 (fat_bytes l) =
        sym (
          slice-slice (l.fat_start * bps) (l.fat_length * bps) (k * 4) 4 (fat_offset g k) ys
            (omega (arith, i.heads)) at)
        ∙ ap (slice (k * 4) 4) c.fat_there in
      Runs-guard At (in_range g k) _ _ (in_range_lem k lo hi) (
        Runs-bind At _ _
          (Runs-try_io At _ (
            Runs-read d store (fat_offset g k) 4 ys
              (omega (arith, at, i.heads, i.fat_end, i.fat_fits))))
          (subst
            (λ b.
              Runs {E = ExfatError} At (lift (ok (le32_at b 0))) ys (ok (word_of (fat_bytes l) k))
                ys)
            (sym there) (Runs-lift At _ ys)))

  chain_root :
      (room : ℕ)
      → 1 ≤ room
      → Runs At (chain_from d g false room (root_first l)) ys (ok (root_first l ∷ [])) ys
  unfolding chain_from
  chain_root zero h = absurd (omega arith)
  chain_root (suc room) h =
      let linked = fat_bytes-Linked l i.heads (omega (arith, i.below_marks)) in
      let ends : (word_of (fat_bytes l) (root_first l) == end_of_chain) ≡ true =
        ground (arith, linked.root_ends) in
      Runs-bind At _ _ (fat_entry_lem (root_first l) (omega arith) (omega arith))
        (rw ends (Runs-lift At _ ys))

  -- The root directory is one cluster.
  pub read_chain-root : Runs At (read_chain d g (root_first l) none) ys (ok (root_first l ∷ [])) ys
  unfolding read_chain
  read_chain-root = chain_root l.cluster_count (omega (arith, i.root_in))

  chain_upcase :
      (n k : ℕ)
      → upcase_first l ≤ k
      → k + n ≡ upcase_first l + l.upcase_clusters
      → Runs At (chain_from d g true n k) ys (ok (run k n)) ys
  unfolding chain_from
  chain_upcase zero k lo e = Runs-lift At _ ys
  chain_upcase (suc zero) k lo e =
      let linked = fat_bytes-Linked l i.heads (omega (arith, i.below_marks)) in
      let word = linked.upcase_links.outer k lo (omega arith) in
      let ends : (word_of (fat_bytes l) k == end_of_chain) ≡ true = ground (arith, word) in
      Runs-bind At _ _ (fat_entry_lem k (omega arith) (omega arith)) (rw ends (Runs-lift At _ ys))
  chain_upcase (suc (suc n)) k lo e =
      let linked = fat_bytes-Linked l i.heads (omega (arith, i.below_marks)) in
      let word = linked.upcase_links.inner k lo (omega arith) in
      let on : (word_of (fat_bytes l) k == end_of_chain) ≡ false =
        ground (arith, word, i.below_marks, e) in
      let good : (word_of (fat_bytes l) k == bad_cluster) ≡ false =
        ground (arith, word, i.below_marks, e) in
      Runs-bind At _ _ (fat_entry_lem k (omega arith) (omega arith)) (
        rw (on, good, word)
          (Runs-bind At _ _ (chain_upcase (suc n) (k + 1) (omega arith) (omega arith))
            (Runs-lift At _ ys)))

  off_next : (k : ℕ) → 2 ≤ k → cluster_off l (k + 1) ≡ cluster_off l k + bytes_per_cluster l
  off_next k h =
      let e : k + 1 - 2 ≡ (k - 2) + 1 = omega arith in
      ap (λ j. l.heap_offset * bps + j * bytes_per_cluster l) e ∙ omega arith

  joined :
      (k left : ℕ)
      → 2 ≤ k
      → slice (cluster_off l k) (min (bytes_per_cluster l) left) ys
          ++ slice (cluster_off l (k + 1)) (left - min (bytes_per_cluster l) left) ys
        ≡ slice (cluster_off l k) left ys
  joined k left h = elim (Bool-cases (leb (bytes_per_cluster l) left)) [
    | inl full ↦
        let all : min (bytes_per_cluster l) left ≡ bytes_per_cluster l = ground arith in
        rw all (
          slice-slice_append (cluster_off l k) (bytes_per_cluster l) (left - bytes_per_cluster l)
            (cluster_off l (k + 1)) left ys (off_next k h) (ground arith))
    | inr part ↦
        let all : min (bytes_per_cluster l) left ≡ left = ground arith in
        let none_left : left - left ≡ 0 = omega arith in
        rw (all, none_left) (append-nil (slice (cluster_off l k) left ys))
  ]

  -- The bytes of consecutive clusters, as far as they are asked for.
  read_clusters-run :
      (n k left : ℕ)
      → upcase_first l ≤ k
      → k + n ≤ root_first l
      → cluster_off l k + n * bytes_per_cluster l ≤ length ys
      → left ≤ n * bytes_per_cluster l
      → n * bytes_per_cluster l < left + bytes_per_cluster l
      → Runs At (read_clusters d g left (run k n)) ys (ok (slice (cluster_off l k) left ys)) ys
  unfolding read_clusters
  read_clusters-run zero k left lo hi within most least =
      let nothing : left ≡ 0 = omega arith in rw nothing (Runs-lift At (ok []) ys)
  read_clusters-run (suc n) k left lo hi within most least =
      let more : (left == 0) ≡ false = ground (arith, least) in
      let next = off_next k (omega arith) in
      let piece = min (bytes_per_cluster l) left in
      rw (more, cluster_size)
        (Runs-value At _ _
          (cluster_offset_lem k (omega arith) (omega arith) (omega (arith, within)))
          (Runs-bind At _ _
            (Runs-try_io At _
              (Runs-read d store (cluster_off l k) piece ys (omega (arith, within))))
            (subst
              (λ b.
                Runs At
                  (do
                    rest ← read_clusters d g (left - piece) (run (k + 1) n)
                    pure (slice (cluster_off l k) piece ys ++ rest))
                  ys (ok b) ys)
              (joined k left (omega arith))
              (Runs-bind At _ _
                (read_clusters-run n (k + 1) (left - piece) (omega arith) (omega arith)
                  (omega (arith, next, within)) (omega (arith, most)) (omega (arith, least)))
                (Runs-lift At _ ys)))))

  div_ceil_tight : (a b : ℕ) → 1 ≤ b → div_ceil a b * b < a + b
  div_ceil_tight a b h = elim (Bool-cases (a % b == 0)) [
    | inl e ↦ rw e (omega (arith, div-add-mod' a b))
    | inr e ↦ rw e (grind (arith, div-add-mod' a b, mod-lt a h))
  ]

  upcase_bytes : slice (cluster_off l (upcase_first l)) (length table) ys ≡ table
  upcase_bytes =
      let pad = l.upcase_clusters * bytes_per_cluster l - length table in
      sym (
        slice-slice (cluster_off l (upcase_first l)) (l.upcase_clusters * bytes_per_cluster l) 0
          (length table) (cluster_off l (upcase_first l)) ys (omega (arith, i.upcase_fits))
          (omega arith))
      ∙ ap (slice 0 (length table)) c.upcase_there
      ∙ take-append (length table) table (replicate pad 0) refl

  -- The up-case table that was written is loaded.
  pub load_lem :
      (t : UpcaseTable)
      → length table ≤ 262_144
      → decompress [] (words_of table) ≡ ok t
      → Runs At (load d g (upcase_first l) (length table)) ys (ok t) ys
  unfolding load read_chain
  load_lem t short e =
      let n = l.upcase_clusters in
      let plausible : not (ltb 262_144 (length table)) ≡ true = ground arith in
      let count : div_ceil (length table) (cluster_bytes g) ≡ n =
        ap (div_ceil (length table)) cluster_size ∙ sym i.upcase_count in
      let tight : n * bytes_per_cluster l < length table + bytes_per_cluster l =
        subst (λ m. m * bytes_per_cluster l < length table + bytes_per_cluster l)
          (sym i.upcase_count)
          (div_ceil_tight (length table) (bytes_per_cluster l) (omega (arith, i.roomy))) in
      Runs-guard At _ _ _ plausible (
        rw count (
          Runs-bind At _ _ (chain_upcase n (upcase_first l) (omega arith) refl) (
            Runs-bind At _ _
              (read_clusters-run n (upcase_first l) (length table) (omega arith) (omega arith)
                (omega (arith, i.upcase_end)) i.upcase_fits tight)
              (rw (upcase_bytes, e) (Runs-lift At (ok t) ys)))))

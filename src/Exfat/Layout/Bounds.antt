-- ===== src/Exfat/Layout/Bounds.antt =====
-- What the sizes of core/norse-exfat/src/format.rs guarantee, once `format` has accepted them.
use vault_pony_core.Prelude.{
  ℕ, ◌+◌, ◌-◌, ◌*◌, ◌/◌, ◌%◌, ◌^◌, ◌≤◌, ◌<◌, ◌≡◌, refl, subst, ◌⊎◌, inl, inr, not, ◌||◌, leb, ltb,
  ◌==◌, Bool-cases, ==_iff, arith,
}
use native.Mathlib.Nat.{div-add-mod', mod-lt}
use vault_pony_core.Prelude.Words.{div_ceil}
use vault_pony_core.Prelude.Results.{ok, ok_injective}
use vault_pony_core.Types.Pure.{guard_ok}
use vault_pony_core.Exfat.Layout.{
  Layout, bps, bytes_per_cluster, upcase_first, root_first, used_clusters, cluster_off,
  choose_spc_shift, layout_of, layout_with, plan,
}

div_ceil_fits : (a b : ℕ) → 1 ≤ b → (a ≤ div_ceil a b * b) × (div_ceil a b ≤ a / b + 1)
div_ceil_fits a b h = elim (Bool-cases (a % b == 0)) [
  | inl e ↦ rw e (omega (arith, div-add-mod' a b, (==_iff (a % b) 0).0 e), omega arith)
  | inr e ↦ rw e (grind (arith, div-add-mod' a b, mod-lt a h), omega arith)
]

-- What the writes of `format` need: where each stands and that it fits, and that the boot sector's
-- 32-bit fields hold their values.
pub record IsLayout (total_bytes upcase_len : ℕ) (l : Layout) : Type 0 where
  pub after_boot : 24 ≤ l.fat_start
  pub fat_fits : l.heap_offset * bps ≤ total_bytes
  pub fat_end : l.heap_offset ≡ l.fat_start + l.fat_length
  pub roomy : 512 ≤ bytes_per_cluster l
  pub bitmap_end : cluster_off l 2 + l.bm_clusters * bytes_per_cluster l ≤ total_bytes
  pub upcase_end :
      cluster_off l (upcase_first l) + l.upcase_clusters * bytes_per_cluster l ≤ total_bytes
  pub root_end : cluster_off l (root_first l) + bytes_per_cluster l ≤ total_bytes
  pub heads : (root_first l + 1) * 4 ≤ l.fat_length * bps
  pub upcase_fits : upcase_len ≤ l.upcase_clusters * bytes_per_cluster l
  pub shift : l.spc_shift ≤ 16
  pub clusters : l.cluster_count + 2 < 2 ^ 32
  pub root_in : root_first l < l.cluster_count + 2
  pub heap : l.heap_offset < 2 ^ 32
  pub upcase_count : l.upcase_clusters ≡ div_ceil upcase_len (bytes_per_cluster l)
  pub bitmap_small : l.bitmap_bytes < 2 ^ 64
  pub below_marks : root_first l ≤ 2 ^ 31 + 2

with-IsLayout3 :
    (total_bytes upcase_len : ℕ)
    → total_bytes < 2 ^ 29
    → (layout_with 3 total_bytes upcase_len).heap_offset
      < (layout_with 3 total_bytes upcase_len).total_sectors
    → root_first (layout_with 3 total_bytes upcase_len)
      < (layout_with 3 total_bytes upcase_len).cluster_count + 2
    → IsLayout total_bytes upcase_len (layout_with 3 total_bytes upcase_len)
unfolding layout_with
with-IsLayout3 total_bytes upcase_len h f r =
    let d1 = div_ceil_fits (((total_bytes / 512 - 24) / 8 + 2) * 4) 512 (omega arith) in
    let d2 =
      div_ceil_fits (div_ceil (((total_bytes / 512 - 24) / 8 + 2) * 4) 512) 8 (omega arith) in
    record {
      after_boot = omega arith;
      fat_fits = omega (arith, f);
      fat_end = refl;
      roomy = omega arith;
      bitmap_end = omega (arith, d1, d2, f, r);
      upcase_end = omega (arith, d1, d2, f, r);
      root_end = omega (arith, d1, d2, f, r);
      heads = omega (arith, d1, d2, f, r);
      upcase_fits = (div_ceil_fits upcase_len 4096 (omega arith)).0;
      shift = omega arith;
      clusters = omega (arith, d1, d2, f, r);
      root_in = r;
      heap = omega (arith, d1, d2, f, r);
      bitmap_small = omega (
        arith,
        d1,
        d2,
        f,
        r,
        (div_ceil_fits (layout_with 3 total_bytes upcase_len).cluster_count 8 (omega arith)).1,
      );
      upcase_count = refl;
      below_marks = omega (arith, d1, d2, f, r);
    }

with-IsLayout6 :
    (total_bytes upcase_len : ℕ)
    → total_bytes < 2 ^ 36
    → (layout_with 6 total_bytes upcase_len).heap_offset
      < (layout_with 6 total_bytes upcase_len).total_sectors
    → root_first (layout_with 6 total_bytes upcase_len)
      < (layout_with 6 total_bytes upcase_len).cluster_count + 2
    → IsLayout total_bytes upcase_len (layout_with 6 total_bytes upcase_len)
unfolding layout_with
with-IsLayout6 total_bytes upcase_len h f r =
    let d1 = div_ceil_fits (((total_bytes / 512 - 64) / 64 + 2) * 4) 512 (omega arith) in
    let d2 =
      div_ceil_fits (div_ceil (((total_bytes / 512 - 64) / 64 + 2) * 4) 512) 64 (omega arith) in
    record {
      after_boot = omega arith;
      fat_fits = omega (arith, f);
      fat_end = refl;
      roomy = omega arith;
      bitmap_end = omega (arith, d1, d2, f, r);
      upcase_end = omega (arith, d1, d2, f, r);
      root_end = omega (arith, d1, d2, f, r);
      heads = omega (arith, d1, d2, f, r);
      upcase_fits = (div_ceil_fits upcase_len 32768 (omega arith)).0;
      shift = omega arith;
      clusters = omega (arith, d1, d2, f, r);
      root_in = r;
      heap = omega (arith, d1, d2, f, r);
      bitmap_small = omega (
        arith,
        d1,
        d2,
        f,
        r,
        (div_ceil_fits (layout_with 6 total_bytes upcase_len).cluster_count 8 (omega arith)).1,
      );
      upcase_count = refl;
      below_marks = omega (arith, d1, d2, f, r);
    }

with-IsLayout8 :
    (total_bytes upcase_len : ℕ)
    → total_bytes < 2 ^ 48
    → (layout_with 8 total_bytes upcase_len).heap_offset
      < (layout_with 8 total_bytes upcase_len).total_sectors
    → root_first (layout_with 8 total_bytes upcase_len)
      < (layout_with 8 total_bytes upcase_len).cluster_count + 2
    → IsLayout total_bytes upcase_len (layout_with 8 total_bytes upcase_len)
unfolding layout_with
with-IsLayout8 total_bytes upcase_len h f r =
    let d1 = div_ceil_fits (((total_bytes / 512 - 256) / 256 + 2) * 4) 512 (omega arith) in
    let d2 =
      div_ceil_fits (div_ceil (((total_bytes / 512 - 256) / 256 + 2) * 4) 512) 256 (omega arith) in
    record {
      after_boot = omega arith;
      fat_fits = omega (arith, f);
      fat_end = refl;
      roomy = omega arith;
      bitmap_end = omega (arith, d1, d2, f, r);
      upcase_end = omega (arith, d1, d2, f, r);
      root_end = omega (arith, d1, d2, f, r);
      heads = omega (arith, d1, d2, f, r);
      upcase_fits = (div_ceil_fits upcase_len 131072 (omega arith)).0;
      shift = omega arith;
      clusters = omega (arith, d1, d2, f, r);
      root_in = r;
      heap = omega (arith, d1, d2, f, r);
      bitmap_small = omega (
        arith,
        d1,
        d2,
        f,
        r,
        (div_ceil_fits (layout_with 8 total_bytes upcase_len).cluster_count 8 (omega arith)).1,
      );
      upcase_count = refl;
      below_marks = omega (arith, d1, d2, f, r);
    }

spc_cases :
    (total_bytes : ℕ)
    → ((choose_spc_shift total_bytes ≡ 3) × (total_bytes < 2 ^ 29))
      ⊎ ((choose_spc_shift total_bytes ≡ 6) × (total_bytes < 2 ^ 36))
      ⊎ (choose_spc_shift total_bytes ≡ 8)
unfolding choose_spc_shift
spc_cases total_bytes = elim (Bool-cases (leb total_bytes (256 * 2 ^ 20))) [
  | inl small ↦ rw small (inl (refl, ground arith))
  | inr large ↦ rw large (elim (Bool-cases (leb total_bytes (32 * 2 ^ 30))) [
    | inl middle ↦ rw middle (inr (inl (refl, ground arith)))
    | inr huge ↦ rw huge (inr (inr refl))
  ])
]

layout_of-IsLayout :
    (total_bytes upcase_len : ℕ)
    → total_bytes < 2 ^ 48
    → (layout_of total_bytes upcase_len).heap_offset
      < (layout_of total_bytes upcase_len).total_sectors
    → root_first (layout_of total_bytes upcase_len)
      < (layout_of total_bytes upcase_len).cluster_count + 2
    → IsLayout total_bytes upcase_len (layout_of total_bytes upcase_len)
unfolding layout_of
layout_of-IsLayout total_bytes upcase_len h = elim (spc_cases total_bytes) [
  | inl (e, b) ↦ rw e (with-IsLayout3 total_bytes upcase_len b)
  | inr (inl (e, b)) ↦ rw e (with-IsLayout6 total_bytes upcase_len b)
  | inr (inr e) ↦ rw e (with-IsLayout8 total_bytes upcase_len h)
]

-- `format` accepts no other layout, below 2 ^ 48 bytes.
pub plan-IsLayout :
    (total_bytes upcase_len : ℕ) (l : Layout)
    → total_bytes < 2 ^ 48
    → plan total_bytes upcase_len ≡ ok l
    → IsLayout total_bytes upcase_len l
unfolding plan
plan-IsLayout total_bytes upcase_len l h e =
    let o = layout_of total_bytes upcase_len in
    let (a, e1) = guard_ok (not (leb o.total_sectors o.fat_start)) _ _ e in
    let (b, e2) = guard_ok (not (leb o.total_sectors o.heap_offset)) _ _ e1 in
    let (c, e3) =
      guard_ok
        (not
          (ltb o.cluster_count (used_clusters o) || ltb (o.cluster_count + 2) (root_first o + 1)))
        _ _ e2 in
    subst (IsLayout total_bytes upcase_len) (ok_injective e3)
      (layout_of-IsLayout total_bytes upcase_len h (ground arith) (ground arith))

-- ===== src/Format/Protect/Latch.antt =====
-- When core/vc-format/src/protect.rs refuses a write, and what it does from then on.
use vault_pony_core.Prelude.{
  ℕ, ◌+◌, ◌<◌, ◌≤◌, ◌≡◌, ◌≢◌, refl, ◌⊎◌, inl, inr, ◌↔◌, true, false, not, ◌&&◌, List, ◌==◌, length,
  max, Bool-cases, arith,
}
use vault_pony_core.Prelude.Words.{u64_mod}
use vault_pony_core.Types.Error.{hidden_volume_protected, err}
use vault_pony_core.Device.{BlockDevice}
use vault_pony_core.Format.Protect.{
  Region, Protected, write_at, intersects_protected, pass, protected_device,
}

-- Some byte of a write of `n` bytes at `off` lies in the region.
abbrev pub Hits : Region → ℕ → ℕ → Type 0
Hits g off n = (i : ℕ) × (off ≤ i) × (i < off + n) × (g.protected_start ≤ i) × (i < g.protected_end)

module _ (g : Region) (nonempty : g.protected_start < g.protected_end)
    (small : g.protected_end < u64_mod) where
  -- The test by end points decides whether the ranges share a byte, also where the end of the write
  -- saturates at the largest 64-bit number.
  intersects_protected_iff :
      (off n : ℕ)
      → off < u64_mod
      → ((not (n == 0) && intersects_protected g off n) ≡ true) ↔ Hits g off n
  unfolding intersects_protected
  intersects_protected_iff off n ho = (
    λ e.
        let (z, a, b) = ends e in
        (max off g.protected_start, omega arith, omega arith, omega arith, omega arith),
    λ (i, a, b, c, e). ground arith,
  )
    where
      ends :
          (not (n == 0) && intersects_protected g off n) ≡ true
          → (n ≢ 0) × (off < g.protected_end) × (g.protected_start < off + n)
      ends e = ground arith

-- A write meets exactly one of three cases. A device that is already read-only refuses it, an empty
-- one too, and nothing is touched. A write that touches a byte of the region is refused and turns the
-- device read-only, and the wrapped device is not called. A write that touches no byte of the region
-- goes to the wrapped device unchanged and does not turn it. The region is not empty and its end and
-- the offset are 64-bit numbers.
pub write_at_lem :
    (d : BlockDevice) (g : Region) (p : Protected d.State) (off : ℕ) (b : List ℕ)
    → g.protected_start < g.protected_end
    → g.protected_end < u64_mod
    → off < u64_mod
    → ((p.read_only ≡ true) × (write_at d g off b p ≡ (err hidden_volume_protected, p)))
      ⊎ ((p.read_only ≡ false)
          × Hits g off (length b)
          × (write_at d g off b p ≡ (err hidden_volume_protected, record p { read_only = true })))
      ⊎ ((p.read_only ≡ false)
          × (¬ Hits g off (length b))
          × (write_at d g off b p ≡ pass (d.write_at off b) p))
unfolding write_at
write_at_lem d g p off b nonempty small ho = elim (Bool-cases p.read_only) [
  | inl e ↦ inl (e, rw e refl)
  | inr e ↦
      let meets = intersects_protected_iff g nonempty small off (length b) ho in
      elim (Bool-cases (not (length b == 0) && intersects_protected g off (length b))) [
        | inl hit ↦ inr (inl (e, meets.0 hit, rw (e, hit) refl))
        | inr miss ↦ inr (inr (e, λ h. cc (meets.1 h), rw (e, miss) refl))
      ]
]

-- Reads are never blocked: they answer as the wrapped device does, latched or not.
pub read_at-pass :
    (d : BlockDevice) (g : Region) (p : Protected d.State) (off n : ℕ)
    → ((protected_device d g).read_at off n p).0 ≡ (d.read_at off n p.inner).0
read_at-pass d g p off n = refl

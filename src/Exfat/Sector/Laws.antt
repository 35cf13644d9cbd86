-- ===== src/Exfat/Sector/Laws.antt =====
-- The checksum of the boot region (core/norse-exfat/src/boot.rs): a 32-bit number, and what the sector
-- that repeats it says.
use vault_pony_core.Prelude.{
  ℕ, suc, ◌+◌, ◌^◌, ◌<◌, ◌≡◌, refl, ap, ◌∙◌, Bool, true, false, List, [], ◌∷◌, ◌++◌, if◌then◌else◌,
  ◌==◌, arith,
}
use vault_pony_core.Prelude.Bytes.{le32_bytes, from_be32_bytes, le32_at}
use vault_pony_core.Prelude.Words.{add32, rotate_right}
use vault_pony_core.Exfat.Sector.{rolling, repeats}

pub rolling-bound :
    (skip : ℕ → Bool) (i sum : ℕ) (bs : List ℕ) → sum < 2 ^ 32 → rolling skip i sum bs < 2 ^ 32
unfolding rolling
rolling-bound skip i sum [] h = h
rolling-bound skip i sum (b ∷ bs) h = rolling-bound skip (i + 1) _ bs (step (skip i))
  where
    step : (t : Bool) → (if t then sum else add32 (rotate_right 32 sum) b) < 2 ^ 32
    step true = h
    step false = omega arith

-- Two tests that agree leave out the same bytes.
pub rolling-ext :
    (f g : ℕ → Bool) (i sum : ℕ) (bs : List ℕ)
    → ((j : ℕ) → f j ≡ g j)
    → rolling f i sum bs ≡ rolling g i sum bs
unfolding rolling
rolling-ext f g i sum [] h = refl
rolling-ext f g i sum (b ∷ bs) h =
    ap (λ t. rolling f (i + 1) (if t then sum else add32 (rotate_right 32 sum) b) bs) (h i)
    ∙ rolling-ext f g (i + 1) _ bs h

-- One more copy of the checksum.
pub repeats_next :
    (n sum : ℕ) (bs : List ℕ)
    → sum < 2 ^ 32
    → repeats n sum bs ≡ true
    → repeats (suc n) sum (le32_bytes sum ++ bs) ≡ true
unfolding repeats
repeats_next n sum bs h e =
    let same : (le32_at (le32_bytes sum ++ bs) 0 == sum) ≡ true =
      ground (arith, from_be32_bytes sum h) in
    rw (same, e)

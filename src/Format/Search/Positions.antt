-- ===== src/Format/Search/Positions.antt =====
-- Where core/vc-format/src/lib.rs looks for headers.
use vault_pony_core.Prelude.{ℕ, ◌+◌, ◌≤◌, ◌≢◌, ◌⊎◌, refl, Option, none, some, arith}
use vault_pony_core.Types.Consts.{header_region_len}
use vault_pony_core.Types.Header.{HeaderPosition, primary, hidden, backup_primary, backup_hidden}
use vault_pony_core.Format.Search.{position_offset}

-- A header region at this offset lies in a container of `len` bytes.
abbrev pub RegionFits : ℕ → Option ℕ → Type 0
RegionFits len none = Unit
RegionFits len (some off) = off + header_region_len ≤ len

-- Every offset that is probed leaves room for the salt and the header, in any container that can
-- hold one header at all: no read of the search runs past its end.
pub position_offset-RegionFits :
    (pos : HeaderPosition) (len : ℕ)
    → header_region_len ≤ len
    → RegionFits len (position_offset pos len)
unfolding position_offset
position_offset-RegionFits primary len h = omega arith
position_offset-RegionFits hidden len h = ground arith
position_offset-RegionFits backup_primary len h = ground arith
position_offset-RegionFits backup_hidden len h = ground arith

abbrev pub Apart : Option ℕ → Option ℕ → Type 0
Apart (some a) (some b) = (a + header_region_len ≤ b) ⊎ (b + header_region_len ≤ a)
Apart none b = ⊥
Apart (some a) none = ⊥

-- In a container of at least 197120 bytes, all four positions exist and no two header regions
-- overlap.
pub position_offset-Apart :
    (p q : HeaderPosition) (len : ℕ)
    → 197_120 ≤ len
    → p ≢ q
    → Apart (position_offset p len) (position_offset q len)
unfolding position_offset
position_offset-Apart primary primary len h ne = absurd (ne refl)
position_offset-Apart hidden hidden len h ne = absurd (ne refl)
position_offset-Apart backup_primary backup_primary len h ne = absurd (ne refl)
position_offset-Apart backup_hidden backup_hidden len h ne = absurd (ne refl)
position_offset-Apart p q len h ne = ground arith

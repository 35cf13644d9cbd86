-- ===== src/Format/Protect.antt =====
-- core/vc-format/src/protect.rs: the device that guards a hidden volume's region against writes of
-- the outer file system. The atomic flag is a field of the state: calls take `&mut self`.
pub mod Latch
pub mod Safety
use vault_pony_core.Prelude.{
  ℕ, ◌+◌, Bool, true, false, not, ◌&&◌, List, ltb, ◌==◌, if◌then◌else◌, length,
}
use vault_pony_core.Prelude.Words.{saturating_add}
use vault_pony_core.Types.Error.{VcResult, VcError, M, hidden_volume_protected, err}
use vault_pony_core.Device.{BlockDevice}

-- The fields that no call changes.
pub record Region : Type 0 where
  pub protected_start : ℕ
  pub protected_end : ℕ

pub record Protected (S : Type 0) : Type 0 where
  pub inner : S
  pub read_only : Bool

unfoldable pub region : ℕ → ℕ → Region
region start n = record { protected_start = start; protected_end = saturating_add start n }

unfoldable pub new : {S : Type 0} → S → Protected S
new s = record { inner = s; read_only = false }

unfoldable pub tripped : {S : Type 0} → Protected S → Bool
tripped p = p.read_only

unfoldable pub intersects_protected : Region → ℕ → ℕ → Bool
intersects_protected g offset n =
    let end = saturating_add offset n in ltb offset g.protected_end && ltb g.protected_start end

-- A call that goes through to the wrapped device.
abbrev pub pass : {S A : Type 0} → M S A → M (Protected S) A
pass m p = let (r, s) = m p.inner in (r, record p { inner = s })

module _ (d : BlockDevice) (g : Region) where
  unfoldable pub write_at : ℕ → List ℕ → M (Protected d.State) (Unit {0})
  unfolding intersects_protected
  write_at offset buf p =
      if p.read_only
      then (err hidden_volume_protected, p)
      else if not (length buf == 0) && intersects_protected g offset (length buf)
      then (err hidden_volume_protected, record p { read_only = true })
      else pass (d.write_at offset buf) p

  -- The implementation of the trait `BlockDevice`.
  abbrev pub protected_device : BlockDevice
  protected_device = record {
    State = Protected d.State;
    len = pass d.len;
    read_at = λ offset n. pass (d.read_at offset n);
    write_at = write_at;
    flush = pass d.flush;
  }

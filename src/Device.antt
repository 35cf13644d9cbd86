-- ===== src/Device.antt =====
-- core/vc-io/src/lib.rs: the trait `BlockDevice`. `&mut self` is a state that each call takes and
-- returns. A read of `n` bytes returns them in place of filling a buffer of `n` bytes.
-- `FileDevice` and `RawFdDevice` are the operating system's files and are not modelled.
pub mod Runs
pub mod Store
use vault_pony_core.Prelude.{ℕ, ◌==◌, Bool, List}
use vault_pony_core.Types.Error.{M, StateM, VcError, ◌>>=◌, pure}

-- The calls of a device that fails with errors of type `E`.
pub record Device (E : Type 0) : Type 1 where
  pub State : Type 0
  pub len : StateM E State ℕ
  pub read_at : ℕ → ℕ → StateM E State (List ℕ)
  pub write_at : ℕ → List ℕ → StateM E State (Unit {0})
  pub flush : StateM E State (Unit {0})

abbrev pub BlockDevice : Type 1
BlockDevice = Device VcError

-- The trait's provided method.
unfoldable pub is_empty : (d : BlockDevice) → M d.State Bool
is_empty d = do n ← d.len; pure (n == 0)

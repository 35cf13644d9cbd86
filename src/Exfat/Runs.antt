-- ===== src/Exfat/Runs.antt =====
-- Calls of a disk inside the operations of core/norse-exfat: an I/O call that returns a value does so
-- under the operator `?`.
use vault_pony_core.Prelude.{refl}
use vault_pony_core.Prelude.Results.{ok, StateM}
use vault_pony_core.Types.Error.{IoError}
use vault_pony_core.Device.Runs.{Runs}
use vault_pony_core.Exfat.Error.{try_io}

pub Runs-try_io :
    {S Y : Type 0} (At : Y → S → Type 0) {A : Type 0} (m : StateM IoError S A) {x y : Y} {a : A}
    → Runs At m x (ok a) y
    → Runs At (try_io m) x (ok a) y
Runs-try_io At m run s p = let (value, q) = run s p in rw value (refl, q)

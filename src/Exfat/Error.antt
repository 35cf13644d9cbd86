-- ===== src/Exfat/Error.antt =====
-- core/norse-exfat/src/lib.rs: the traits `ReadAt` and `WriteAt`, and the errors. `std::io::Error` is
-- `IoError`; an I/O error that the operator `?` meets becomes the constructor `io`. `panic` is the
-- model's own: an index out of range or an `unwrap` of nothing, where the thread panics.
use Prim.Native.String.{String}
use vault_pony_core.Prelude.{◌==◌, Bool}
use vault_pony_core.Prelude.Results.{Result, ok, err, StateM, ◌>>=◌, pure}
use vault_pony_core.Types.Error.{IoError}
use vault_pony_core.Device.{Device}

pub data ExfatError : Type 0 where
  invalid : String → ExfatError
  not_found : ExfatError
  io : IoError → ExfatError
  panic : ExfatError

abbrev pub ExfatResult : Type 0 → Type 0
ExfatResult A = Result ExfatError A

-- The calls of `ReadAt` and `WriteAt` together: `read_at`, `len`, `write_at` and `flush`.
abbrev pub Disk : Type 1
Disk = Device IoError

unfoldable pub is_empty : (d : Disk) → StateM IoError d.State Bool
is_empty d = do n ← d.len; pure (n == 0)

-- A call over a disk state that fails with the crate's error.
abbrev pub X : Type 0 → Type 0 → Type 0
X S A = StateM ExfatError S A

-- `impl From<io::Error> for ExfatError`, in `?`.
abbrev from_io : {A : Type 0} → Result IoError A → ExfatResult A
from_io (ok a) = ok a
from_io (err e) = err (io e)

abbrev pub try_io : {S A : Type 0} → StateM IoError S A → X S A
try_io m s = let (r, s') = m s in (from_io r, s')

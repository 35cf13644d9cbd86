-- ===== src/Sample/Sessions.antt =====
-- Tests of a session as callers in other languages hold it.
use Prim.Native.String.{String}
use vault_pony_core.Prelude.{
  ℕ, ◌+◌, ◌≡◌, refl, true, false, some, List, [], ◌∷◌, none, length, replicate,
}
use vault_pony_core.Prelude.Results.{ok, err}
use vault_pony_core.Types.Error.{IoError}
use vault_pony_core.VcFs.Detect.{fat}
use vault_pony_core.VcFs.ExfatVfs
use vault_pony_core.Ffi.Error.{internal}
use vault_pony_core.Ffi.{DynVfs, State, lock, write_at}
use vault_pony_core.Ffi.Locked.{Request, serve, run, run-lock}
use vault_pony_core.Ffi.Locked

abbrev text : IoError → String
text e = "other error"

abbrev about : ExfatVfs.DirEntry
about = record { name = 65 ∷ []; is_dir = false; size = 1; mtime_ms = none }

-- A volume that counts its calls.
abbrev counting : DynVfs ℕ
counting = record {
  kind = λ s. fat;
  writable = λ s. true;
  list = λ path s. (ok (about ∷ []), s + 1);
  stat = λ path s. (ok about, s + 1);
  read_at = λ path offset n s. (ok (replicate n 0), s + 1);
  write_at = λ path offset bytes s. (ok (length bytes), s + 1);
  create = λ path s. (ok tt, s + 1);
  mkdir = λ path s. (ok tt, s + 1);
  rename = λ from to s. (ok tt, s + 1);
  unlink = λ path s. (ok tt, s + 1);
  truncate = λ path len s. (ok tt, s + 1);
  flush = λ s. (ok tt, s + 1);
  close = λ s. s + 1;
}

abbrev opened : State ℕ
opened = (
  record {
    poisoned = false;
    inner = some (record { vfs = counting; scheme = "AES"; prf = "SHA-512" });
  },
  0,
)

-- An open session reaches the volume.
write_reaches : write_at text (65 ∷ []) 0 (1 ∷ 2 ∷ []) opened ≡ (ok 2, (opened.0, 1))
unfolding write_at
write_reaches = refl

abbrev requests : List Request
requests = Locked.flush ∷ Locked.write_at (65 ∷ []) 0 (1 ∷ []) ∷ []

run-lock_example :
    (run text requests (lock opened) ≡ (replicate 2 (err internal), lock opened))
    × (lock (lock opened) ≡ lock opened)
run-lock_example = run-lock text opened requests

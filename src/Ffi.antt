-- ===== src/Ffi.antt =====
-- core/vault-ffi/src/lib.rs: a session as callers in other languages hold it, over the trait `Vfs` of
-- core/vc-fs/src/lib.rs. A panic in a call, which poisons the lock of the session, is not modelled; a
-- session whose lock is poisoned already is.
pub mod Error
pub mod Locked
use Prim.Native.String.{String}
use vault_pony_core.Prelude.{
  ℕ, ◌*◌, ◌%◌, ◌^◌, min, Bool, Option, none, some, List, map, if◌then◌else◌,
}
use vault_pony_core.Prelude.Results.{Result, ok, err, StateM, pure, lift, ◌>>=◌, ◌>>◌}
use vault_pony_core.Types.Error.{
  IoError, VcError, not_found_or_wrong_password, version_too_new, system_volume,
  hidden_volume_protected, header_damaged, unsupported_filesystem, unknown_filesystem, filesystem,
  io, internal, M,
}
use vault_pony_core.VcFs.Detect.{FsKind, fat, exfat, ntfs, ext4, unknown}
use vault_pony_core.VcFs.Io.{map_err_M}
use vault_pony_core.VcFs.ExfatVfs
use vault_pony_core.Session.{Session}
use vault_pony_core.Ffi.Error.{VaultError}
use vault_pony_core.Ffi.Error

-- `dyn Vfs`: the calls of an adapter, which change the state of the volume and its device. `close` is
-- what dropping the adapter does.
pub record DynVfs (S : Type 0) : Type 0 where
  pub kind : S → FsKind
  pub writable : S → Bool
  pub list : List ℕ → M S (List ExfatVfs.DirEntry)
  pub stat : List ℕ → M S ExfatVfs.DirEntry
  pub read_at : List ℕ → (offset n : ℕ) → M S (List ℕ)
  pub write_at : List ℕ → ℕ → List ℕ → M S ℕ
  pub create : List ℕ → M S (Unit {0})
  pub mkdir : List ℕ → M S (Unit {0})
  pub rename : (from to : List ℕ) → M S (Unit {0})
  pub unlink : List ℕ → M S (Unit {0})
  pub truncate : List ℕ → (len : ℕ) → M S (Unit {0})
  pub flush : M S (Unit {0})
  pub close : S → S

pub record DirEntry : Type 0 where
  pub name : List ℕ
  pub is_dir : Bool
  pub size : ℕ
  pub mtime_ms : Option ℕ

abbrev entry_of : ExfatVfs.DirEntry → DirEntry
entry_of e = record { name = e.name; is_dir = e.is_dir; size = e.size; mtime_ms = e.mtime_ms }

pub record VolumeFacts : Type 0 where
  pub scheme : String
  pub prf : String
  pub filesystem : String
  pub writable : Bool

abbrev kind_name : FsKind → String
kind_name fat = "Fat"
kind_name exfat = "Exfat"
kind_name ntfs = "Ntfs"
kind_name ext4 = "Ext4"
kind_name unknown = "Unknown"

-- The slot of the session, and whether its lock is poisoned.
pub record VaultSession (S : Type 0) : Type 0 where
  pub poisoned : Bool
  pub inner : Option (Session (DynVfs S))

abbrev pub State : Type 0 → Type 0
State S = VaultSession S × S

-- `kind_text` is the standard library's text of an I/O error's kind.
module _ (kind_text : IoError → String) where
  abbrev from_vc_error : VcError → VaultError
  from_vc_error not_found_or_wrong_password = Error.not_found_or_wrong_password
  from_vc_error (version_too_new required supported) = Error.version_too_new
  from_vc_error system_volume = Error.system_volume
  from_vc_error hidden_volume_protected = Error.hidden_volume_protected
  from_vc_error header_damaged = Error.header_damaged
  from_vc_error (unsupported_filesystem name) = Error.unsupported_filesystem name
  from_vc_error unknown_filesystem = Error.unsupported_filesystem "unrecognized"
  from_vc_error (filesystem detail) = Error.filesystem detail
  from_vc_error (io e) = Error.io (kind_text e)
  from_vc_error (internal what) = Error.internal

  module _ {S : Type 0} where
    abbrev via : {A : Type 0} → M S A → StateM VaultError S A
    via = map_err_M from_vc_error

    unfoldable pub with_session :
        {A : Type 0} → (Session (DynVfs S) → StateM VaultError S A) → StateM VaultError (State S) A
    with_session f (v, s) = if v.poisoned then (err Error.internal, (v, s)) else elim v.inner [
      | some session ↦ let (r, s') = f session s in (r, (v, s'))
      | none ↦ (err Error.internal, (v, s))
    ]

    unfoldable pub facts : StateM VaultError (State S) VolumeFacts
    unfolding with_session
    facts = with_session (λ session s. (
      ok (record {
        scheme = session.scheme;
        prf = session.prf;
        filesystem = kind_name (session.vfs.kind s);
        writable = session.vfs.writable s;
      }),
      s,
    ))

    unfoldable pub list : (path : List ℕ) → StateM VaultError (State S) (List DirEntry)
    unfolding with_session
    list path =
        with_session
          λ session. do entries ← via (session.vfs.list path); pure (map entry_of entries)

    unfoldable pub stat : (path : List ℕ) → StateM VaultError (State S) DirEntry
    unfolding with_session
    stat path = with_session λ session. do e ← via (session.vfs.stat path); pure (entry_of e)

    -- At most 8 MiB for each call.
    unfoldable pub read_at :
        (path : List ℕ) → (offset len : ℕ) → StateM VaultError (State S) (List ℕ)
    unfolding with_session
    read_at path offset len =
        with_session (λ session. via (session.vfs.read_at path offset (min len (8 * 2 ^ 20))))

    unfoldable pub write_at :
        (path : List ℕ) → (offset : ℕ) → (bytes : List ℕ) → StateM VaultError (State S) ℕ
    unfolding with_session
    write_at path offset bytes =
        with_session
          λ session. do n ← via (session.vfs.write_at path offset bytes); pure (n % 2 ^ 32)

    unfoldable pub create : (path : List ℕ) → StateM VaultError (State S) (Unit {0})
    unfolding with_session
    create path = with_session (λ session. via (session.vfs.create path))

    unfoldable pub mkdir : (path : List ℕ) → StateM VaultError (State S) (Unit {0})
    unfolding with_session
    mkdir path = with_session (λ session. via (session.vfs.mkdir path))

    unfoldable pub rename : (from to : List ℕ) → StateM VaultError (State S) (Unit {0})
    unfolding with_session
    rename from to = with_session (λ session. via (session.vfs.rename from to))

    unfoldable pub remove : (path : List ℕ) → StateM VaultError (State S) (Unit {0})
    unfolding with_session
    remove path = with_session (λ session. via (session.vfs.unlink path))

    unfoldable pub truncate : (path : List ℕ) → (len : ℕ) → StateM VaultError (State S) (Unit {0})
    unfolding with_session
    truncate path len = with_session (λ session. via (session.vfs.truncate path len))

    unfoldable pub flush : StateM VaultError (State S) (Unit {0})
    unfolding with_session
    flush = with_session (λ session. via session.vfs.flush)

-- `lock`: the session is taken out of its slot and dropped.
unfoldable pub lock : {S : Type 0} → State S → State S
lock (v, s) = if v.poisoned then (v, s) else elim v.inner [
  | some session ↦ (record { poisoned = v.poisoned; inner = none }, session.vfs.close s)
  | none ↦ (v, s)
]

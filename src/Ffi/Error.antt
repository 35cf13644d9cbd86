-- ===== src/Ffi/Error.antt =====
-- core/vault-ffi/src/lib.rs: the errors that callers in other languages see.
use Prim.Native.String.{String}

pub data VaultError : Type 0 where
  not_found_or_wrong_password version_too_new system_volume : VaultError
  hidden_volume_protected header_damaged : VaultError
  unsupported_filesystem : (name : String) → VaultError
  filesystem io : (detail : String) → VaultError
  internal : VaultError

-- ===== src/Types/Error.antt =====
-- core/vc-types/src/error.rs: the one error type, and the results that carry it. A text that `format!` fills keeps its fixed words only.
use Prim.Native.String.{String}
use vault_pony_core.Prelude.{ℕ}
pub use vault_pony_core.Prelude.Results.{
  Result, ok, err, guard, StateM, pure, fail, lift, guard_M, after, ◌>>=◌, ◌>>◌, Result-cases,
  bind_ok, bind_err, ok_injective, bind_pure_state,
}

-- `std::io::Error`, by the `ErrorKind` that the code builds. `other` stands for any other kind,
-- with the number of the platform's error, and `wrapped` for one made by `Error::other`, whose text is
-- left out.
pub data IoError : Type 0 where
  unexpected_eof invalid_input : IoError
  other : ℕ → IoError
  wrapped : IoError

pub data VcError : Type 0 where
  not_found_or_wrong_password : VcError
  version_too_new : ℕ → ℕ → VcError
  system_volume : VcError
  hidden_volume_protected : VcError
  header_damaged : VcError
  unsupported_filesystem : String → VcError
  unknown_filesystem : VcError
  filesystem : String → VcError
  io : IoError → VcError
  internal : String → VcError

abbrev pub VcResult {ℓ} : Type ℓ → Type ℓ
VcResult A = Result VcError A

abbrev pub M : Type 0 → Type 0 → Type 0
M S A = StateM VcError S A

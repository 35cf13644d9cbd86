-- ===== src/Format/Search.antt =====
-- core/vc-format/src/lib.rs: the search for a header that validates under a password. Keys that the
-- source derives in parallel are derived where they are used: derivation is a function, so that the
-- answer is the same. The progress callback is a log of its calls.
pub mod Positions
pub mod Order
pub mod Outcome
pub mod Sound
pub mod Wrong
pub mod Bytes
pub mod Examples
use Prim.Native.String.{String}
use vault_pony_core.Prelude.{
  ℕ, zero, suc, ◌+◌, ◌-◌, ◌*◌, max, not, Bool, true, false, Option, none, some, List, [], ◌∷◌, ◌++◌,
  leb, ltb, ◌==◌, if◌then◌else◌, length, take,
}
use vault_pony_core.Prelude.Words.{add64, checked_sub}
use vault_pony_core.Types.Consts.{
  salt_len, header_enc_len, header_region_len, primary_header_offset, hidden_header_offset,
  backup_standard_from_end, backup_hidden_from_end,
}
use vault_pony_core.Types.Error.{
  VcResult, VcError, ok, err, M, pure, guard_M, lift, internal, not_found_or_wrong_password, ◌>>=◌,
  ◌>>◌,
}
use vault_pony_core.Types.Header.{
  HeaderPosition, primary, hidden, backup_primary, backup_hidden, VolumeHeader,
}
use vault_pony_core.Types.Registry.{
  EncryptionScheme, key_bytes, Prf, iterations_for_pim, encryption_schemes, prfs,
}
use vault_pony_core.Device.{BlockDevice}
use vault_pony_core.Crypto.Primitives.{Primitives}
use vault_pony_core.Crypto.Xts.{decrypt_header, supported}
use vault_pony_core.Crypto.Xts
use vault_pony_core.Crypto.Kdf.{derive_header_key, HeaderKey, as_bytes}
use vault_pony_core.Format.Parse.{parse_decrypted_header}

pub record UnlockSecret : Type 0 where
  pub passphrase : List ℕ
  pub pim : ℕ

unfoldable pub position_offset : HeaderPosition → ℕ → Option ℕ
position_offset primary len = some primary_header_offset
position_offset hidden len =
    if leb (hidden_header_offset + header_region_len) len then some hidden_header_offset else none
position_offset backup_primary len = checked_sub len backup_standard_from_end
position_offset backup_hidden len = checked_sub len backup_hidden_from_end

pub record FoundHeader : Type 0 where
  pub header : VolumeHeader
  pub scheme : EncryptionScheme
  pub prf : Prf

pub record Slot : Type 0 where
  pub position : HeaderPosition
  pub salt : List ℕ
  pub enc : List ℕ

-- `panicked` stands for a panic of the attempt, which returns from no function.
pub data SchemeOutcome : Type 0 where
  found : VolumeHeader → EncryptionScheme → SchemeOutcome
  finding : VcError → SchemeOutcome
  miss : SchemeOutcome
  panicked : SchemeOutcome

-- `schemes.iter().filter(|s| SchemeXts::supported(s))`
pub supported_of : List EncryptionScheme → List EncryptionScheme
supported_of [] = []
supported_of (s ∷ ss) = if supported s then s ∷ supported_of ss else supported_of ss

-- `iter().map(|s| s.key_bytes()).max().unwrap_or(0)`
pub max_key_len_of : List EncryptionScheme → ℕ
max_key_len_of [] = 0
max_key_len_of (s ∷ ss) = max (key_bytes s) (max_key_len_of ss)

-- `best_finding`, `step` and the calls of the progress callback, last first.
pub record Progress : Type 0 where
  pub best : Option VcError
  pub step : ℕ
  pub log : List (ℕ × ℕ × String)

-- A loop that has returned from the function, or run to its end.
pub data Sweep : Type 0 where
  returned : VcResult FoundHeader → Progress → Sweep
  continued : Progress → Sweep

abbrev pub best_or : Option VcError → VcError
best_or none = not_found_or_wrong_password
best_or (some e) = e

-- What follows a loop that ran to its end.
abbrev pub and_then : Sweep → (Progress → Sweep) → Sweep
and_then (returned r p) k = returned r p
and_then (continued p) k = k p

abbrev pub finish : Sweep → VcResult FoundHeader × Progress
finish (returned r p) = (r, p)
finish (continued p) = (err (best_or p.best), p)

-- `progress(step, total, prf.name); step += 1`
abbrev pub note : ℕ → Prf → Progress → Progress
note total prf p = record p { step = p.step + 1; log = (p.step, total, prf.name) ∷ p.log }

abbrev pub start : Progress
start = record { best = none; step = 0; log = [] }

-- What the loops do with the outcome of one attempt.
abbrev pub settle : Prf → VcResult SchemeOutcome → Progress → Sweep
settle prf (err e) p = returned (err e) p
settle prf (ok (found h s)) p = returned (ok (record { header = h; scheme = s; prf = prf })) p
settle prf (ok (finding e)) p = continued (record p { best = some e })
settle prf (ok miss) p = continued p
settle prf (ok panicked) p = returned (err (internal "panic")) p

-- What the parser's answer means for the search: a missing magic is a miss, any other error a finding.
abbrev pub judge : EncryptionScheme → VcResult VolumeHeader → SchemeOutcome
judge s (ok h) = found h s
judge s (err not_found_or_wrong_password) = miss
judge s (err e) = finding e

-- How the loop over schemes goes on: a success ends it, a finding is remembered.
abbrev pub carry_on :
    SchemeOutcome → Option VcError → (Option VcError → SchemeOutcome) → SchemeOutcome
carry_on (found h s) last k = found h s
carry_on (finding e) last k = k (some e)
carry_on miss last k = k last
carry_on panicked last k = panicked

module _ (c : Primitives) where
  unfoldable pub derive_for : Prf → UnlockSecret → List ℕ → ℕ → VcResult HeaderKey
  derive_for prf secret salt key_len =
      derive_header_key c.kdf prf.name secret.passphrase salt (iterations_for_pim prf secret.pim)
        key_len

  abbrev pub outcome_of : Option VcError → SchemeOutcome
  outcome_of none = miss
  outcome_of (some e) = finding e

  -- One scheme: whether its header validates, what is found instead, or nothing. A slice of more than
  -- the key is a panic.
  pub try_scheme : EncryptionScheme → HeaderKey → List ℕ → HeaderPosition → SchemeOutcome
  try_scheme s key enc position =
      if ltb (length (as_bytes key)) (key_bytes s)
      then panicked
      else elim (Xts.new s (take (key_bytes s) (as_bytes key))) [
        | err e ↦ miss
        | ok xts ↦ judge s (parse_decrypted_header c.crc32 (decrypt_header c.mode xts enc) position)
      ]

  -- The loop of `try_schemes`, with the last finding so far.
  pub try_schemes_from :
      Option VcError → List EncryptionScheme → HeaderKey → List ℕ → HeaderPosition → SchemeOutcome
  unfolding try_scheme
  try_schemes_from last [] key enc position = outcome_of last
  try_schemes_from last (s ∷ ss) key enc position =
      carry_on (try_scheme s key enc position) last (λ l. try_schemes_from l ss key enc position)

  unfoldable pub try_schemes :
      List EncryptionScheme → HeaderKey → List ℕ → HeaderPosition → SchemeOutcome
  unfolding try_schemes_from
  try_schemes = try_schemes_from none

  module _ (schemes : List EncryptionScheme) (key_len : ℕ) (secret : UnlockSecret) where
    -- One derivation, and all schemes against one slot.
    pub attempt : Prf → Slot → VcResult SchemeOutcome
    attempt prf slot = elim (derive_for prf secret slot.salt key_len) [
      | err e ↦ err e
      | ok key ↦ ok (try_schemes schemes key slot.enc slot.position)
    ]

    -- One PRF over slots in order.
    pub sweep : ℕ → Prf → List Slot → Progress → Sweep
    unfolding attempt
    sweep total prf [] p = continued p
    sweep total prf (slot ∷ slots) p =
        and_then (settle prf (attempt prf slot) (note total prf p)) (λ q. sweep total prf slots q)

    -- `for prf in prfs.iter().skip(1)`
    pub sweep_prfs : ℕ → List Prf → List Slot → Progress → Sweep
    unfolding sweep
    sweep_prfs total [] slots p = continued p
    sweep_prfs total (prf ∷ ps) slots p =
        and_then (sweep total prf slots p) (λ q. sweep_prfs total ps slots q)

    -- The default PRF at the first slot, then at the remaining ones.
    pub sweep_default : ℕ → Prf → List Slot → Sweep
    unfolding sweep
    sweep_default total prf [] = continued start
    sweep_default total prf (slot ∷ slots) =
        and_then (sweep total prf (slot ∷ []) start)
          (λ q. if leb 1 (length slots) then sweep total prf slots q else continued q)

    -- The three phases of `find_header_at` over the slots that were read, for the PRFs in order.
    pub search : List Prf → List Slot → VcResult FoundHeader × Progress
    unfolding sweep_default sweep_prfs
    search [] slots = (err (internal "index out of bounds"), start)
    search (default ∷ others) slots =
        let total = length slots * length (default ∷ others) in
        finish (and_then (sweep_default total default slots) (λ q. sweep_prfs total others slots q))

module _ (c : Primitives) (d : BlockDevice) where
  pub read_slot : HeaderPosition → ℕ → M d.State Slot
  read_slot position offset = do
    salt ← d.read_at offset salt_len
    enc ← d.read_at (add64 offset salt_len) header_enc_len
    pure (record { position = position; salt = salt; enc = enc })

  -- Salt and ciphertext of every position that the container has room for.
  pub read_slots : ℕ → List HeaderPosition → M d.State (List Slot)
  unfolding read_slot
  read_slots len [] = pure []
  read_slots len (position ∷ ps) = elim (position_offset position len) [
    | none ↦ read_slots len ps
    | some offset ↦ do
      slot ← read_slot position offset
      slots ← read_slots len ps
      pure (slot ∷ slots)
  ]

  unfoldable pub find_header_at : UnlockSecret → List HeaderPosition → M d.State FoundHeader
  unfolding read_slots search supported_of max_key_len_of
  find_header_at secret positions = do
    len ← d.len
    let schemes = supported_of encryption_schemes
    let max_key_len = max_key_len_of schemes
    guard_M (not (max_key_len == 0)) (internal "no encryption schemes implemented")
    slots ← read_slots len positions
    lift (search c schemes max_key_len secret prfs slots).0

  unfoldable pub find_header : UnlockSecret → M d.State FoundHeader
  unfolding find_header_at
  find_header secret =
      find_header_at secret (primary ∷ hidden ∷ backup_primary ∷ backup_hidden ∷ [])

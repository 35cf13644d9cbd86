-- ===== src/Crypto/Primitives.antt =====
-- The primitives of other crates, together: CRC-32 (crc32fast), the XTS mode (xts-mode over the
-- cipher crates) and PBKDF2 (pbkdf2 over the digest crates).
use vault_pony_core.Prelude.{ℕ, List}
use vault_pony_core.Crypto.Xts.{XtsMode}
use vault_pony_core.Crypto.Kdf.{Pbkdf2}

pub record Primitives : Type 0 where
  pub crc32 : List ℕ → ℕ
  pub mode : XtsMode
  pub kdf : Pbkdf2

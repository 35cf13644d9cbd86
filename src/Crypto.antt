-- ===== src/Crypto.antt =====
-- core/vc-crypto: the XTS engine over cascades, header-key derivation and keyfiles.
pub mod Xts
pub mod Kdf
pub mod Keyfile
pub mod Primitives

-- ===== src/Types.antt =====
-- core/vc-types: the vocabulary of the other crates. No input, no output and no cryptography.
pub mod Consts
pub mod Error
pub mod Header
pub mod Registry
pub mod Offsets
pub mod Pure

-- ===== src/Format.antt =====
-- core/vc-format: headers, the search for them, and the devices of the data area.
pub mod Parse
pub mod Create
pub mod Decrypted
pub mod Protect
pub mod Search
pub mod Candidates
pub mod Volume
pub mod Repair

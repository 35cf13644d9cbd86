-- ===== src/Exfat.antt =====
-- core/norse-exfat: reading and writing an exFAT volume.
pub mod Error
pub mod Runs
pub mod Sector
pub mod Boot
pub mod Fat
pub mod Alloc
pub mod Upcase
pub mod Dir
pub mod Paths
pub mod Sets
pub mod Slots
pub mod Write
pub mod Layout
pub mod Format
pub mod Ranges
pub mod Fs

-- ===== src/Lib.antt =====
-- A verification library for VaultPonyCore, which opens, creates and repairs VeraCrypt containers.
--
-- The program. A container is a file or device of bytes. Up to four header regions of 512 bytes hold
-- a salt and 448 encrypted bytes each: the primary header at its start, a hidden volume's header at
-- 65536, and backups of both near its end. A password, with keyfiles mixed in, gives by PBKDF2 a key
-- for a cascade of XTS ciphers; a header that decrypts to the right magic and checksums yields the
-- master keys and the geometry of the data area. Over that area lies a device that encrypts and
-- decrypts on the way, and over it, when a hidden volume is to be protected, one that refuses writes
-- into its region. File systems work on the device on top.
--
-- The files, and the code they model:
--   Types      core/vc-types: constants, errors, header values, the registry of schemes and PRFs
--   Device     core/vc-io/src/lib.rs: the trait BlockDevice; Device/Store states what a device that
--              stores bytes promises, Device/Runs composes its calls
--   Crypto     core/vc-crypto: Kdf (kdf.rs), Keyfile (keyfile.rs) and Xts (xts.rs)
--   Format     core/vc-format: Parse (parse.rs), Create and Volume (create.rs), Search (lib.rs),
--              Candidates (candidates.rs),
--              Decrypted (decrypted.rs), Protect (protect.rs) and Repair (repair.rs)
--   Exfat      core/norse-exfat: Sector and Boot (boot.rs), Fat (fat.rs), Alloc (alloc.rs), Upcase
--              (upcase.rs), Dir (dir.rs), Fs and Ranges (lib.rs), Sets, Slots and Write (write.rs),
--              Layout and Format (format.rs), Paths (the paths of lib.rs and write.rs)
--   VcFs       core/vc-fs: Detect (detect.rs), Io (io.rs), ExfatVfs (exfat.rs), and open_volume
--   Session    core/vault-core: unlocking and Create (session.rs), Probe (probe.rs), Repair (lib.rs)
--   Ffi        core/vault-ffi/src/lib.rs: the session that callers in other languages hold
--   Sample     concrete devices, modes and sources of randomness, and tests on them
--   Prelude    bytes, slices, words, results and the lemmas that all parts share
-- Functions and types carry the names of the source, in this library's spelling. `&mut self` is a
-- state that a call takes and returns, `VcResult` is a result type, and `?` is the bind of the monad
-- `M` in Types/Error. A buffer that a read fills is the list that it returns. A disk of norse-exfat is
-- a device that fails with I/O errors, the adapter in VcFs makes one of a block device, and a text is
-- the list of its UTF-16 units. A panic is the error `panic` of Exfat/Error, the internal error "panic"
-- elsewhere, and `panicked` in the outcome of a search's attempt.
--
-- Parameters. The XTS mode of one cipher, PBKDF2, CRC-32 over a buffer, the random source, the stored
-- bytes and the crates fatfs and ntfs belong to others. They are records that the definitions take, and
-- IsXts, IsPermutation, IsPbkdf2, IsStore, RefusesPastEnd and IsRandom state the documented behaviour
-- that theorems rely on. Module Sample has an instance of each. The bytes of the up-case table that
-- `format` writes are its argument.
--
-- Bounds and fuel. Offsets are 64-bit and iteration counts 32-bit; sums, differences and products wrap
-- as in a release build, where the source does not check them. Almost every loop is a recursion on a
-- list or on a count. The loops over the bytes of a file run on fuel, one for each byte, and pieces-Covers
-- shows that it is enough. The walk along the table of clusters has the bound that the source gives it.
--
-- Not modelled: the wiping of secrets from memory, threads (the search derives each key where it is
-- used), the text of error messages, the operating system's files, the path functions of the FAT
-- adapter and the NTFS adapter (over third-party file system crates), the vendored fatfs, the free
-- functions of the foreign function interface, and the command line.
pub mod Prelude
pub mod Types
pub mod Device
pub mod Crypto
pub mod Format
pub mod Exfat
pub mod Ffi
pub mod Sample
pub mod Session
pub mod VcFs

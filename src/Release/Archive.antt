-- ===== src/Release/Archive.antt =====
-- Archive inspection (src/release/archive.rs): the trust boundary between downloaded bytes and the
-- two files that an installation writes.
pub mod Names
pub mod Pax
pub mod Member
pub mod Tar
pub mod Zip
pub mod Inspect
pub mod Kept
pub mod ZipKept
pub mod ZipAccount
pub mod TarKept
pub mod TarLoop
pub mod Rounds
pub mod Inspected

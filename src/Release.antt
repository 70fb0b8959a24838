-- ===== src/Release.antt =====
-- Signed release metadata and archives (src/release).
pub mod Error
pub mod Target
pub mod Manifest
pub mod Signature
pub mod Archive
pub mod Download

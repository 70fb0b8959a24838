-- ===== src/Install.antt =====
-- Managed installation, activation and crash recovery (src/install) on a Unix host.
pub mod State
pub mod Host
pub mod Config
pub mod Disk
pub mod Journal
pub mod Pointer
pub mod Verify
pub mod Staging
pub mod Activate
pub mod Recovery
pub mod Manager
pub mod Health
pub mod Sessions

-- ===== src/Tests.antt =====
-- Concrete inputs for the theorems: a host with two signed versions, and runs of the operations on it.
mod Codec
mod Sample
mod Release
mod Archives
mod Downloads
mod Install
mod Rollback
mod Update
mod Sessions

-- ===== src/Release/Download.antt =====
-- Release downloads (src/release/download.rs): Urls for the URLs of a release, Responses for what a
-- transport answered, Body for reading a response, Metadata for resolving and verifying. The url crate
-- and the transport are parameters.
pub mod Urls
pub mod Responses
pub mod Body
pub mod Metadata
pub mod Released
pub mod Authentic
pub mod Resolved
pub mod Exact
pub mod Bounded
pub mod Canonical

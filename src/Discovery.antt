-- ===== src/Discovery.antt =====
-- rust/crates/inkhole-core/src/discovery.rs: how the peers of the local network are found, probed
-- and listed.
pub mod Addresses
pub mod Announcements
pub mod Config
pub mod Candidates
pub mod Registry
pub mod Tracker
pub mod Handlers
pub mod Loop

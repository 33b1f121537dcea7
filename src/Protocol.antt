-- ===== src/Protocol.antt =====
-- rust/crates/inkhole-core/src/protocol.rs: what the peers send each other, and what they accept.
pub mod Hex
pub mod Names
pub mod Paths
pub mod Filenames
pub mod Manifest
pub mod Authentication
pub mod Capabilities
pub mod Signatures
pub mod Offers
pub mod Probes
pub mod Frames

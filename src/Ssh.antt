-- ===== src/Ssh.antt =====
-- rust/crates/inkhole-core/src/ssh: pairing through a relay.
pub mod Pairing

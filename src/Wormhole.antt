-- ===== src/Wormhole.antt =====
-- rust/crates/inkhole-core/src/wormhole: the tunnel that carries QUIC through a stream.
pub mod Records
pub mod Peer
pub mod Upstream

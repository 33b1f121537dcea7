-- ===== src/Service.antt =====
-- rust/crates/inkhole-core/src/service.rs.
pub mod EventQueue

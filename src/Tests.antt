-- ===== src/Tests.antt =====
-- Runs of the program's operations at concrete inputs, one module per component.
pub mod Peers
pub mod Instances
pub mod Events
pub mod Names
pub mod Folders
pub mod Handshake
pub mod Pairing
pub mod Tunnel
pub mod Signed
pub mod Transfers
pub mod Roots
pub mod Discovery
pub mod Deliveries
pub mod Exchanges

-- ===== src/Store.antt =====
-- rust/crates/inkhole-core/src/state.rs: the store of transfers of single files, for one transfer id
-- and the root that its files go to.
pub mod Destination
pub mod Disk
pub mod Finalize
pub mod Prepare
pub mod Files
pub mod Completion
pub mod Replay
pub mod Tree
pub mod Folders

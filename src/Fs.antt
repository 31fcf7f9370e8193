-- ===== src/Fs.antt =====
-- crates/world-fsmodel/src/lib.rs: the in-memory file system that the fuzz driver uses as an oracle.
pub mod Types
pub mod Paths
pub mod Nodes
pub mod Resolve
pub mod Chain
pub mod Create
pub mod Names
pub mod Ops
pub mod Build
pub mod Valid
pub mod Step
pub mod Reply
pub mod Codec
pub mod Equiv
pub mod Tests
mod Witnesses

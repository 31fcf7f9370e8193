-- ===== src/Registry.antt =====
-- crates/world-runtime/src/silo.rs and apple_vm.rs: the registry of workspaces, and the temp roots that
-- registries under one home share. The kernel's answers are a parameter.
pub mod Types
pub mod Paths
pub mod Records
pub mod Roots
pub mod Create
pub mod Logic
pub mod Marks
pub mod Claims
pub mod Tests
pub mod Worlds
pub mod Steps
pub mod Saved
pub mod Owners
pub mod Exclusive
pub mod Sound
pub mod Invariant
pub mod Free
pub mod Redirect
mod Witnesses

-- ===== src/Fs/Ops.antt =====
-- crates/world-fsmodel/src/lib.rs: the operations, one `do_*` function each, and `apply`.
pub mod Run
pub mod Make
pub mod Open
pub mod Io
pub mod Remove
pub mod Rename
pub mod Query
pub mod Apply

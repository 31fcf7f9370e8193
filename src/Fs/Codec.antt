-- ===== src/Fs/Codec.antt =====
-- crates/world-fsmodel/src/lib.rs: the text of operations in a replay file.
pub mod Escape
pub mod Flags
pub mod Number
pub mod Digits
pub mod Line
pub mod Words
pub mod Paths
pub mod RoundTrip

-- ===== src/Proxy.antt =====
-- crates/world-runtime/src/proxy.rs: the proxy through which a workspace reaches the destinations of its
-- policy. The sockets, the name server, HTTP and base64 are parameters.
pub mod Public
pub mod Ranges
pub mod Headers
pub mod Trim
pub mod Hops
pub mod Prepare
pub mod Forward
pub mod Routes
pub mod Grants
pub mod Reach
pub mod Delivery
pub mod Tests
mod Witnesses

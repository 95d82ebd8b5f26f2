-- ===== src/Net.antt =====
-- The connection tracer of c/net.c.
pub mod Attrs
pub mod Chains
pub mod Owner
pub mod Watch
pub mod Reverse
pub mod Line
pub mod Events
pub mod Messages
pub mod Lsof

-- ===== src/Dns.antt =====
-- c/dns.c.
pub mod Name
pub mod Message
pub mod Packet
pub mod Attribution
pub mod Json

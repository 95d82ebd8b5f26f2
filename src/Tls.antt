-- ===== src/Tls.antt =====
-- The TLS tracer of c/tls.c, from a parsed trace event on: server names, remote addresses and lines.
pub mod Address
pub mod Names
pub mod Events

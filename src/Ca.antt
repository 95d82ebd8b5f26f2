-- ===== src/Ca.antt =====
-- c/ca.c, which fetches the chain of certificates of a host: the flags, the URL of an issuer, the HTTP
-- answer, the redirects, and which certificates are saved.
pub mod Cuts
pub mod Flags
pub mod Url
pub mod Response
pub mod Fetch
pub mod Chain
pub mod Main

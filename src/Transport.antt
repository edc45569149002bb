-- ===== src/Transport.antt =====
-- The top of the call graph: routes, sockets and what stands in front of them (src/transport).
pub mod RateLimit
pub mod Signalling

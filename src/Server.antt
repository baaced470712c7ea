-- ===== src/Server.antt =====
-- internal/server: the HTTP service. The children are the event streams, the middleware chain, the recovery of panics, and
-- the fleet routes.
pub mod Sse
pub mod Federation
pub mod Middleware
pub mod Recovery

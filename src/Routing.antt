-- ===== src/Routing.antt =====
-- server/routing.go and server/routing_pool.go: which provider serves a request.
pub mod Pool
pub mod Rules
pub mod Request
mod Tests

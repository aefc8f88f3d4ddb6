-- ===== src/Server.antt =====
-- internal/server: the part of the HTTP server that keeps state of its own.
pub mod Monitor
pub mod Claims
pub mod Heartbeat
pub mod Session
pub mod Upstream
pub mod Tests
pub mod Resumption
pub mod Opening

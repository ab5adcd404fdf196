-- ===== src/Server.antt =====
-- The collector's command handlers (server/server.go, server/query.go).
pub mod TypeAttrs
pub mod Redact
pub mod Query
pub mod Relay
pub mod Commands
pub mod Forward
pub mod Handlers
pub mod Tests

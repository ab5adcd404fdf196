-- ===== src/Protocol.antt =====
-- The negotiator's side of the NEGOTIATE protocol (negotiator/protocol/cache.go, session.go).
pub mod Factory
pub mod Session
pub mod Tests

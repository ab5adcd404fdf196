-- ===== src/Matchmaker.antt =====
-- negotiator/matchmaker/, with the candidates of negotiator/types.go: the search for the best slot
-- for one request.
pub mod Floats
pub mod Candidate
pub mod Limits
pub mod Eval
pub mod Shard
pub mod SlotView
pub mod Match

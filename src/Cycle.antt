-- ===== src/Cycle.antt =====
-- negotiator/cycle/: the negotiation cycle.
pub mod Requests
pub mod Submitter
pub mod Share
pub mod JobPrio
pub mod Group
pub mod Tracker

-- ===== src/Accountant.antt =====
-- negotiator/accountant/: the accounting of the negotiator.
pub mod Tree
pub mod Limits

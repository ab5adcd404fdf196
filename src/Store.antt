-- ===== src/Store.antt =====
-- store/: the collector's tables of ads, and what is built on them.
pub mod AdType
pub mod HashKey
pub mod RawProject
pub mod SeqVersion
pub mod Reject
pub mod Batch
pub mod Tables

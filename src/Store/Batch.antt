-- ===== src/Store/Batch.antt =====
-- store/batch.go: the buffer of updates in front of a database backend.
pub mod Buffer
pub mod Flush
pub mod Enqueue
pub mod Reads
pub mod Tests

-- ===== src/Worker/Batch.antt =====
-- What happens to a batch of queue messages.
pub mod Runs
pub mod Dropped

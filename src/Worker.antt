-- ===== src/Worker.antt =====
-- The domain worker: the Lambda that takes node generation jobs from a queue
-- (apis/atlas_domain_worker/src).
pub mod Job
pub mod Services
pub mod Statements
pub mod Clients
pub mod Similarity
pub mod Errors
pub mod Decision
pub mod Processors
pub mod Handler
pub mod Trace
pub mod Decisions
pub mod Batch

-- ===== src/Agent.antt =====
-- The domain generation agents of the REST service.
pub mod Registry
pub mod Generation
pub mod Concepts
pub mod Queueing
pub mod Numbering
pub mod Prompts
pub mod Steps

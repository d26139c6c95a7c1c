-- ===== src/Worker/Processors.antt =====
-- The four node processors (processors/*.rs of the worker).
pub mod Common
pub mod Knowledge
pub mod Skill
pub mod Trait
pub mod Milestone

-- ===== src/Agent/Prompts.antt =====
-- The prompts that the steps send (domains/agent/prompts/templates.rs).
pub mod Knowledge
pub mod Milestones
pub mod Notes
pub mod Skills
pub mod Structure
pub mod System
pub mod Traits

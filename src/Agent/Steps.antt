-- ===== src/Agent/Steps.antt =====
-- The steps of a generation (domains/agent/steps).
pub mod Batches
pub mod Alignment
pub mod Architect
pub mod Assignment
pub mod Context
pub mod Creation
pub mod Dispatch
pub mod Environment
pub mod Generators
pub mod Keeping
pub mod Kinds
pub mod Levels
pub mod Linked
pub mod Milestones
pub mod Panics
pub mod Placement
pub mod Prerequisites
pub mod Replies
pub mod Skills
pub mod Slices
pub mod Answers
pub mod Tracking
pub mod Traits
pub mod Verification
pub mod Within

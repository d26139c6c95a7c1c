-- ===== src/Agent/Steps/Keeping.antt =====
-- What the steps leave alone: the nodes of other agents, and the course of the events.
pub mod Creating
pub mod Deciding
pub mod Generators
pub mod Relations
pub mod Traits
pub mod Whole

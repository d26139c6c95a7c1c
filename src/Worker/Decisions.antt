-- ===== src/Worker/Decisions.antt =====
-- What the decisions of the worker guarantee.
pub mod Targets
pub mod Levels
pub mod Consultation

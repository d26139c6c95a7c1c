-- ===== src/Effects.antt =====
-- Fallible code, code that calls services, and how it adds to a count of calls.
pub mod Defs
pub mod Counting

-- ===== src/Worker/Trace.antt =====
-- What the worker's code writes to the database, counted over the history of its calls.
pub mod Counts
pub mod Silent
pub mod Creation
pub mod Linking

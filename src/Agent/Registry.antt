-- ===== src/Agent/Registry.antt =====
-- The registry of what one domain generation made:
-- apis/atlas_of_us_rest_api/src/domains/agent/models.rs.
-- A `HashSet` that is only inserted into is the list of its members; `usize` counts are ℕ, since
-- they are lengths of lists.
pub mod Defs
pub mod Dedup
pub mod Counts

-- ===== src/Graph.antt =====
-- The graph services of the REST API: domains/graph.
pub mod Models
pub mod Statements
pub mod Database
pub mod Requirements
pub mod Levels
pub mod Domains
pub mod Calls
pub mod Linking
pub mod Alignment
pub mod Outcomes
pub mod Updates
pub mod Requests
pub mod Values
pub mod Mapping
pub mod Queries
pub mod Store
pub mod Similarity
pub mod Nodes
pub mod Reading
pub mod Relationships
pub mod Responses
pub mod Statuses
pub mod Mapped
pub mod Returned
pub mod Checked

-- ===== src/Agent/Generation.antt =====
-- The generation of a domain by the agents of the REST service: domains/agent/models.rs and
-- domains/agent/orchestrator.rs. The steps are taken through the interface of the trait AgentStep.
pub mod Models
pub mod Orchestrator
pub mod Statistics
pub mod Protocol

-- ===== src/Lib.antt =====
-- Atlas of Us: a Neo4j knowledge graph of what people learn, a REST API over it (crate
-- apis/atlas_of_us_rest_api) whose agent generates the graph of a domain with a language model, and
-- a Lambda worker (crate apis/atlas_domain_worker) that generates one node for each message of a
-- queue. The API sends the messages, the worker reads them, and the two share only the database,
-- the message format and the rules by which a node is reused or created. The paths below are
-- those of the two crates.
--
-- Shared: Prelude (tests and lists), Text (`trim`, `strip_prefix` and `trim_start_matches` of Rust
-- on characters, and `extract_json` of both crates), Effects (calls to the outside as an explicit
-- history, newest call first: every call may depend on all the calls before it, errors stop a
-- computation and keep the history), Floats (`f64`, a parameter with the facts on two-decimal
-- literals that the code relies on).
--
-- Worker (apis/atlas_domain_worker/src):
--   Worker.Job: messages/node_job.rs, the message, the node types and the result.
--   Worker.Services: what the worker calls and does not implement (Neo4j, HTTP, JSON decoding,
--   environment variables), a record that every operation takes as a parameter.
--   Worker.Statements: the Cypher texts. Worker.Clients: services/embedding.rs, services/llm.rs.
--   Worker.Similarity: services/similarity.rs. Worker.Errors: `ProcessingError` and
--   `is_retryable_error`. Worker.Decision: processors/common.rs, up to `determine_level`.
--   Worker.Processors: the rest of common.rs and knowledge.rs, skill.rs, trait_proc.rs and
--   milestone.rs, each with `generate_properties`, `create_node` and `process`.
--   Worker.Handler: handler.rs, the loop over a batch. The runtime that calls it is not modelled.
--   Worker.Trace, Worker.Decisions and Worker.Batch hold the proofs: what a job asks of the
--   database, how a concept is decided, and what a batch does.
-- Agent (apis/atlas_of_us_rest_api/src/domains/agent):
--   Agent.Registry: the registry of generated nodes in models.rs.
--   Agent.Generation: the agents, their events and context of models.rs (Models), orchestrator.rs
--   (Orchestrator), over any steps with the interface of AgentStep, and the proofs on
--   events (Protocol) and statistics (Statistics).
--   Agent.Queueing: the messages that handlers.rs queues through common/sqs.rs, with the worker's
--   record of a message, whose fields both crates declare; the proof is in Agent.Numbering.
--   Agent.Concepts: the decision by scores of steps/mod.rs.
--   Agent.Prompts: prompts/templates.rs.
--   Agent.Steps: the seven steps of the directory steps. Environment: the services that they call, a
--   record, and the state that they change: the context, the events sent, and the world outside.
--   Slices and Replies: the reading of replies of the language model (StepUtils in steps/mod.rs).
--   Context: the methods of AgentContext. Kinds, Verification, Creation and Generators: the seven
--   passes of knowledge_generator.rs, over a record of what skill_generator.rs does otherwise,
--   whose own passes stand in Skills. Traits, Milestones, Assignment and Levels, Prerequisites,
--   Architect: the other steps. Dispatch: the steps as the orchestrator takes them. Within is what
--   a step leaves alone; Keeping, Batches, Alignment, Linked, Answers, Tracking, Placement and Panics
--   hold the proofs.
-- Agreement: the proof that the service and the worker decide alike.
-- Graph (apis/atlas_of_us_rest_api/src/domains/graph):
--   Graph.Models: models.rs, the requests and results on domains. Graph.Database: what neo4rs does,
--   a parameter. Graph.Statements, Graph.Requirements, Graph.Levels, Graph.Domains:
--   services/domain.rs (texts; create_component_node and process_level_requirements; the two loops
--   over levels; the five public operations). Graph.Calls, Graph.Linking, Graph.Alignment,
--   Graph.Outcomes and Graph.Updates hold the proofs on domains.
--   Graph.Values: JSON values. Graph.Mapping: common/neo4j_utils.rs. Graph.Store: what the services
--   on nodes call, and common/embedding.rs. Graph.Queries: the statements of services/node.rs,
--   relationship.rs, search.rs and of common/similarity.rs, which is Graph.Similarity. Graph.Nodes
--   and Graph.Reading: services/node.rs. Graph.Relationships: services/relationship.rs and
--   services/search.rs. Graph.Responses: the handlers of handlers.rs on nodes and relationships.
--   Graph.Mapped, Graph.Returned, Graph.Checked and Graph.Statuses hold the proofs.
-- Auth (apis/atlas_of_us_rest_api/src/domains/auth): Auth.Accounts models handlers.rs with
-- services.rs and models.rs, over argon2, jsonwebtoken and the database as parameters; Auth.Access
-- holds the proofs, and Auth.Tokens models middleware.rs.
-- Samples: concrete services and inputs, and the theorems at them.
--
-- Asynchronous code is modelled in the order in which it awaits. Logging leaves no trace in the
-- model. A number of type u8, u32 or usize is a natural number where the code only reads and
-- compares it. A panic is a failure of its own, which ends the task. `trim_start_matches` runs
-- on fuel, as much as the text has characters: every round that goes on removes at least one.
-- `decimal` runs on as much fuel as the number itself, and `replace` on as much as the text has
-- characters. The steps take the services on nodes and relationships as parameters. Not modelled:
-- the REST handlers on domains, profiles, the S3 and image clients (they only call libraries), the
-- user interface, and the batch jobs. The steps search and create in batches of one, so one request
-- is made after the other. The functions on letters that need the tables of Unicode are parameters.
pub mod Agent
pub mod Agreement
pub mod Auth
pub mod Effects
pub mod Floats
pub mod Graph
pub mod Prelude
pub mod Samples
pub mod Text
pub mod Worker

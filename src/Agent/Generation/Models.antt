-- ===== src/Agent/Generation/Models.antt =====
-- The agents, their context and their events: domains/agent/models.rs.
use atlas_of_us.Prelude.{ℕ, String, Bool, Option, none, List, [], ◌∷◌}
use atlas_of_us.Agent.Registry.Defs.{DomainGraphRegistry, empty}

pub data AgentType : Type 0 where
  domain_architect knowledge_generator skill_generator trait_generator milestone_generator :
      AgentType
  level_distributor prerequisite_mapper : AgentType

unfoldable pub display_name : AgentType → String
display_name domain_architect = "Domain Architect"
display_name knowledge_generator = "Knowledge Generator"
display_name skill_generator = "Skill Generator"
display_name trait_generator = "Trait Generator"
display_name milestone_generator = "Milestone Generator"
display_name level_distributor = "Level Distributor"
display_name prerequisite_mapper = "Prerequisite Mapper"

unfoldable pub order : AgentType → ℕ
order domain_architect = 1
order knowledge_generator = 2
order skill_generator = 3
order trait_generator = 4
order milestone_generator = 5
order level_distributor = 6
order prerequisite_mapper = 7

unfoldable pub all_agents : List AgentType
all_agents =
    domain_architect ∷ knowledge_generator ∷ skill_generator ∷ trait_generator ∷ milestone_generator
    ∷ level_distributor ∷ prerequisite_mapper ∷ []

pub record DomainStatistics : Type 0 where
  pub domain_levels_created : ℕ
  pub knowledge_created : ℕ
  pub skills_created : ℕ
  pub traits_created : ℕ
  pub milestones_created : ℕ
  pub relationships_created : ℕ
  pub nodes_reused : ℕ
  pub generation_time_ms : ℕ

-- `DomainStatistics::default`
abbrev pub no_statistics : DomainStatistics
no_statistics = record {
  domain_levels_created = 0;
  knowledge_created = 0;
  skills_created = 0;
  traits_created = 0;
  milestones_created = 0;
  relationships_created = 0;
  nodes_reused = 0;
  generation_time_ms = 0;
}

-- Over the type of scores.
pub data SseEvent (F : Type 0) : Type 0 where
  started : String → ℕ → SseEvent F
  domain_exists : String → String → SseEvent F
  agent_started : AgentType → ℕ → String → SseEvent F
  step_progress : AgentType → String → SseEvent F
  similarity_check : AgentType → String → ℕ → Option F → SseEvent F
  verification_result : AgentType → String → String → Option String → SseEvent F
  node_created : AgentType → String → String → Bool → SseEvent F
  agent_completed : AgentType → ℕ → ℕ → SseEvent F
  agent_failed : AgentType → String → SseEvent F
  completed : String → DomainStatistics → SseEvent F
  failed : String → Option AgentType → Option DomainGraphRegistry → SseEvent F

pub record AgentContext : Type 0 where
  pub domain_name : String
  pub description : Option String
  pub domain_element_id : Option String
  pub domain_graph : DomainGraphRegistry

-- `AgentContext::new`
abbrev pub new_context : String → Option String → AgentContext
new_context domain_name description = record {
  domain_name = domain_name;
  description = description;
  domain_element_id = none;
  domain_graph = empty;
}

pub record DomainGenerationResult : Type 0 where
  pub domain_name : String
  pub domain_element_id : String
  pub domain_graph : DomainGraphRegistry
  pub statistics : DomainStatistics

-- How a task of the program ends early: with an error, or by a panic.
pub data Abort : Type 0 where
  fault : String → Abort
  panicked : Abort

-- common/similarity.rs
pub record Similar (F : Type 0) : Type 0 where
  pub name : String
  pub description : Option String
  pub id : String
  pub score : F

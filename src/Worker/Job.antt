-- ===== src/Worker/Job.antt =====
-- Queue messages: messages/node_job.rs of the worker. `u8` and `u32` fields are ℕ that no code of
-- the worker adds to.
use atlas_of_us.Prelude.{ℕ, String, Bool, Option, none, some, List, ◌==ₙ◌, if◌then◌else◌, find}

pub data NodeType : Type 0 where
  knowledge skill trait milestone : NodeType

unfoldable pub label : NodeType → String
label knowledge = "Knowledge"
label skill = "Skill"
label trait = "Trait"
label milestone = "Milestone"

unfoldable pub level_relationship : NodeType → String
level_relationship knowledge = "REQUIRES_KNOWLEDGE"
level_relationship skill = "REQUIRES_SKILL"
level_relationship trait = "REQUIRES_TRAIT"
level_relationship milestone = "REQUIRES_MILESTONE"

pub record DomainLevelInfo : Type 0 where
  pub level : ℕ
  pub name : String
  pub element_id : String

pub record NodeGenerationJob : Type 0 where
  pub job_id : String
  pub generation_id : String
  pub sequence_number : ℕ
  pub total_nodes : ℕ
  pub node_type : NodeType
  pub node_name : String
  pub domain_name : String
  pub domain_description : Option String
  pub domain_element_id : String
  pub domain_levels : List DomainLevelInfo
  pub suggested_level : Option ℕ
  pub created_at : String
  pub retry_count : ℕ

abbrev pub is_level : ℕ → DomainLevelInfo → Bool
is_level level l = l.level ==ₙ level

unfoldable pub get_suggested_level_info : NodeGenerationJob → Option DomainLevelInfo
get_suggested_level_info job = elim job.suggested_level [
  | none ↦ none
  | some level ↦ find (is_level level) job.domain_levels
]

pub record NodeGenerationResult : Type 0 where
  pub job_id : String
  pub element_id : Option String
  pub was_reused : Bool
  pub reused_node_id : Option String
  pub assigned_level : Option ℕ
  pub prerequisites_created : ℕ
  pub error : Option String

-- `NodeGenerationResult::success`
abbrev pub success : String → String → Bool → Option ℕ → ℕ → NodeGenerationResult
success job_id element_id was_reused assigned_level prerequisites_created = record {
  job_id = job_id;
  element_id = some element_id;
  was_reused = was_reused;
  reused_node_id = if was_reused then some element_id else none;
  assigned_level = assigned_level;
  prerequisites_created = prerequisites_created;
  error = none;
}

-- ===== src/Graph/Models.antt =====
-- domains/graph/models.rs: the requests and results on domains, and the errors of the services.
use atlas_of_us.Prelude.{ℕ, String, Bool, Option, List, [], ◌∷◌}
use atlas_of_us.Text.{format}
use atlas_of_us.Floats.{Floats}

-- An `i64` that the code only passes on.
pub data ℤ : Type 0 where
  pos negsuc : ℕ → ℤ

pub data ServiceError (F : Type 0) : Type 0 where
  database_error embedding_failed not_found validation_error : String → ServiceError F
  similar_node_exists : F → String → ServiceError F

unfoldable pub show_service_error : (fl : Floats) → ServiceError fl.F64 → String
show_service_error fl (database_error msg) = format ("Database error: " ∷ msg ∷ [])
show_service_error fl (embedding_failed msg) = format ("Embedding failed: " ∷ msg ∷ [])
show_service_error fl (similar_node_exists score details) =
    format ("Similar node exists (score: " ∷ fl.format_full score ∷ "): " ∷ details ∷ [])
show_service_error fl (not_found msg) = format ("Not found: " ∷ msg ∷ [])
show_service_error fl (validation_error msg) = format ("Validation error: " ∷ msg ∷ [])

pub record NewNodeData : Type 0 where
  pub name : String
  pub description : String
  pub how_to_learn : Option String
  pub how_to_develop : Option String
  pub measurement_criteria : Option String
  pub how_to_achieve : Option String

pub record KnowledgeRequirement : Type 0 where
  pub node_element_id : Option String
  pub new_node : Option NewNodeData
  pub bloom_level : String

pub record SkillRequirement : Type 0 where
  pub node_element_id : Option String
  pub new_node : Option NewNodeData
  pub dreyfus_level : String

pub record TraitRequirement : Type 0 where
  pub node_element_id : Option String
  pub new_node : Option NewNodeData
  pub min_score : ℤ

pub record MilestoneRequirement : Type 0 where
  pub node_element_id : Option String
  pub new_node : Option NewNodeData

pub record LevelRequirements : Type 0 where
  pub knowledge : List KnowledgeRequirement
  pub skills : List SkillRequirement
  pub traits : List TraitRequirement
  pub milestones : List MilestoneRequirement

pub record DomainLevel : Type 0 where
  pub level : ℤ
  pub name : String
  pub description : Option String
  pub points_required : ℤ
  pub requirements : LevelRequirements

pub record DomainInfo : Type 0 where
  pub name : String
  pub description : String

pub record CreateDomainRequest : Type 0 where
  pub domain : DomainInfo
  pub levels : List DomainLevel

pub record CreatedNodeInfo : Type 0 where
  pub element_id : String
  pub name : String
  pub labels : List String

pub record CreateDomainResult : Type 0 where
  pub success : Bool
  pub domain_element_id : String
  pub domain_name : String
  pub created_nodes : List CreatedNodeInfo

pub record UpdateDomainRequest : Type 0 where
  pub domain_element_id : String
  pub domain : DomainInfo
  pub levels : List DomainLevel
  pub removed_node_element_ids : List String

pub record UpdateDomainResult : Type 0 where
  pub success : Bool
  pub domain_element_id : String
  pub domain_name : String
  pub created_nodes : List CreatedNodeInfo
  pub affected_user_progress_count : ℤ

pub record DomainNameValidation : Type 0 where
  pub available : Bool
  pub existing_domain_element_id : Option String

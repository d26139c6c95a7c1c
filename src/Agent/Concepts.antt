-- ===== src/Agent/Concepts.antt =====
-- What a concept becomes: `VerifiedConcept` of domains/agent/models.rs and StepUtils of
-- domains/agent/steps/mod.rs.
use atlas_of_us.Prelude.{String, Bool, Option, none, some, List, [], ◌∷◌, if◌then◌else◌}
use atlas_of_us.Floats.{Floats, lt_f64, ge_f64}
use atlas_of_us.Agent.Generation.Models.{Similar}

pub data ConceptAction : Type 0 where
  create_new_node : ConceptAction
  use_node : String → ConceptAction
  generalize_node : String → String → Bool → ConceptAction

pub record VerifiedConcept : Type 0 where
  pub name : String
  pub action : ConceptAction

-- `VerifiedConcept::create_new`, `use_existing` and `create_and_generalize`
abbrev pub concept_create_new : String → VerifiedConcept
concept_create_new name = record { name = name; action = create_new_node }

abbrev pub concept_use_existing : String → String → VerifiedConcept
concept_use_existing name element_id = record { name = name; action = use_node element_id }

abbrev pub concept_generalize : String → String → String → Bool → VerifiedConcept
concept_generalize name id target needs_creation = record {
  name = name;
  action = generalize_node id target needs_creation;
}

module _ (fl : Floats) where
  unfoldable pub determine_action_by_score : String → List (Similar fl.F64) → Option VerifiedConcept
  determine_action_by_score concept [] = some (concept_create_new concept)
  determine_action_by_score concept (top ∷ rest) =
      if lt_f64 fl top.score (fl.hundredths 70)
      then some (concept_create_new concept)
      else if ge_f64 fl top.score (fl.hundredths 95)
      then some (concept_use_existing concept top.id)
      else none

-- ===== src/Graph/Requirements.antt =====
-- The requirements of a level: create_component_node and process_level_requirements of
-- domains/graph/services/domain.rs.
use atlas_of_us.Prelude.{
  ℕ, suc, String, Option, none, some, List, [], ◌∷◌, ◌++◌, ◌==◌, if◌then◌else◌,
}
use atlas_of_us.Text.{format, decimal}
use atlas_of_us.Effects.Defs.{Result, ok, err, Eff, pure, lift, ◌>>=◌, ◌>>◌, unwrap_or, attempt}
use atlas_of_us.Graph.Models.{
  ServiceError, database_error, NewNodeData, KnowledgeRequirement, SkillRequirement,
  TraitRequirement, MilestoneRequirement, LevelRequirements, CreatedNodeInfo,
}
use atlas_of_us.Graph.Statements.{
  GraphStatement, merge_component, require_knowledge, require_skill, require_trait,
  require_milestone,
}
use atlas_of_us.Graph.Database.{
  Param, GraphParams, GraphRow, GraphCall, GraphDb, first_row, execute_query, run_query,
}

-- A property that is set where the request has it.
abbrev pub optional_prop : String → Option String → List (String × String)
optional_prop key none = []
optional_prop key (some value) = (key, value) ∷ []

abbrev pub label_props : String → NewNodeData → List (String × String)
label_props label d =
    if label == "Knowledge"
    then optional_prop "how_to_learn" d.how_to_learn
    else if label == "Skill"
    then optional_prop "how_to_develop" d.how_to_develop
    else if label == "Trait"
    then optional_prop "measurement_criteria" d.measurement_criteria
    else if label == "Milestone"
    then optional_prop "how_to_achieve" d.how_to_achieve
    else []

abbrev pub component_props : String → NewNodeData → List (String × String)
component_props label d = ("name", d.name) ∷ ("description", d.description) ∷ label_props label d

abbrev pub set_clauses : ℕ → List (String × String) → List String
set_clauses i [] = []
set_clauses i ((key, _) ∷ props) =
    format ("n." ∷ key ∷ " = $prop" ∷ decimal i ∷ []) ∷ set_clauses (suc i) props

abbrev pub prop_params : ℕ → List (String × String) → GraphParams
prop_params i [] = []
prop_params i ((_, value) ∷ props) =
    (format ("prop" ∷ decimal i ∷ []), Param.text value) ∷ prop_params (suc i) props

module _ (db : GraphDb) where
  abbrev pub Service : Type 0 → Type 0
  Service A = Eff GraphCall (ServiceError db.floats.F64) A

  -- The element id in the first row of what a query returned; the texts are those of the errors.
  abbrev pub row_id :
      String → Option (GraphRow db.Json) → Result (ServiceError db.floats.F64) String
  row_id missing none = err (database_error missing)
  row_id missing (some row) = ok (unwrap_or (row.get_text "elementId") "")

  abbrev pub element_id_of :
      (String → String)
      → String
      → Result String (List (Result String (GraphRow db.Json)))
      → Result (ServiceError db.floats.F64) String
  element_id_of failed missing (err e) = err (database_error (failed e))
  element_id_of failed missing (ok rows) = row_id missing (first_row rows)

  unfoldable pub create_component_node : String → NewNodeData → Service String
  create_component_node label node_data = do
    let props = component_props label node_data
    rows ←
        execute_query db (merge_component label (set_clauses 0 props))
          (("name", Param.text node_data.name) ∷ prop_params 0 props)
    lift (
        element_id_of (λ e. format ("Database error: " ∷ e ∷ []))
          "Failed to get element ID after creation" rows)

  abbrev pub info : String → NewNodeData → String → CreatedNodeInfo
  info label new_node id = record { element_id = id; name = new_node.name; labels = label ∷ [] }

  -- What became of the creation of a node: its id, and its record for the result; none where it
  -- failed, which skips the requirement.
  abbrev pub created_or_skipped :
      String
      → NewNodeData
      → Result (ServiceError db.floats.F64) String
      → Option (String × List CreatedNodeInfo)
  created_or_skipped label new_node (ok id) = some (id, info label new_node id ∷ [])
  created_or_skipped label new_node (err e) = none

  -- The node of a requirement: the existing one, or a new one; none skips the requirement.
  unfoldable pub resolve_node :
      String → Option String → Option NewNodeData → Service (Option (String × List CreatedNodeInfo))
  unfolding create_component_node
  resolve_node label (some existing_id) new_node = pure (some (existing_id, []))
  resolve_node label none none = pure none
  resolve_node label none (some new_node) = do
    outcome ← attempt (create_component_node label new_node)
    pure (created_or_skipped label new_node outcome)

  -- One of the four kinds of requirements: its label, where it names its node, its statement and
  -- the parameters of the relationship.
  module _ {R : Type 0} (label : String) (existing : R → Option String)
      (new_node : R → Option NewNodeData) (statement : GraphStatement) (extra : R → GraphParams)
      (level_element_id : String) where
    -- An error of the relationship is only logged.
    unfoldable pub link_node :
        R → Option (String × List CreatedNodeInfo) → Service (List CreatedNodeInfo)
    link_node req none = pure []
    link_node req (some (node_id, created)) = do
      run_query db statement
          (("levelId", Param.text level_element_id) ∷ ("nodeId", Param.text node_id) ∷ extra req)
      pure created

    -- The loop over the requirements of the kind: the nodes that were created.
    unfoldable pub require_each : List R → Service (List CreatedNodeInfo)
    unfolding resolve_node link_node
    require_each [] = pure []
    require_each (req ∷ reqs) = do
      node ← resolve_node label (existing req) (new_node req)
      created ← link_node req node
      rest ← require_each reqs
      pure (created ++ rest)

  unfoldable pub process_level_requirements :
      String → LevelRequirements → Service (List CreatedNodeInfo)
  unfolding require_each
  process_level_requirements level_element_id requirements = do
    knowledge ←
        require_each "Knowledge" KnowledgeRequirement.node_element_id KnowledgeRequirement.new_node
          require_knowledge (λ r. ("bloomLevel", Param.text r.bloom_level) ∷ []) level_element_id
          requirements.knowledge
    skills ←
        require_each "Skill" SkillRequirement.node_element_id SkillRequirement.new_node
          require_skill (λ r. ("dreyfusLevel", Param.text r.dreyfus_level) ∷ []) level_element_id
          requirements.skills
    traits ←
        require_each "Trait" TraitRequirement.node_element_id TraitRequirement.new_node
          require_trait (λ r. ("minScore", Param.int r.min_score) ∷ []) level_element_id
          requirements.traits
    milestones ←
        require_each "Milestone" MilestoneRequirement.node_element_id MilestoneRequirement.new_node
          require_milestone (λ r. []) level_element_id requirements.milestones
    pure (knowledge ++ (skills ++ (traits ++ milestones)))

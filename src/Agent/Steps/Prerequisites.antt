-- ===== src/Agent/Steps/Prerequisites.antt =====
-- The prerequisite mapper (domains/agent/steps/prerequisite_mapper.rs).
use atlas_of_us.Agent.Prompts.Structure.{prerequisite_analysis}
use atlas_of_us.Agent.Steps.Generators.{progress}
use atlas_of_us.Agent.Prompts.System.{relationship_architect}
use atlas_of_us.Agent.Steps.Levels.{requires_type}
use atlas_of_us.Effects.Defs.{map_ok, lift, ok_or, and_then, ok, Result, ◌>>◌, pure, ◌>>=◌}
use atlas_of_us.Agent.Generation.Models.{fault, prerequisite_mapper, Abort, AgentContext}
use atlas_of_us.Agent.Steps.Replies.{text_or, array_at, parse_object, text_at}
use atlas_of_us.Text.{decimal, format}
use atlas_of_us.Agent.Steps.Environment.{
  change_context, ask_model, get_context, relate, Step, Json, StepEnvironment,
}
use atlas_of_us.Agent.Steps.Assignment.{find_element_id, identified_line, all_lines, nodes_of_type}
use atlas_of_us.Agent.Registry.Defs.{add_prerequisite, CreatedNode}
use atlas_of_us.Prelude.{
  ℕ, ◌+◌, String, Bool, true, false, Option, none, some, List, [], ◌∷◌, ◌++◌, length,
}

pub record PrerequisiteRelationship : Type 0 where
  pub source_id : String
  pub source_name : String
  pub target_id : String
  pub target_name : String
  pub relationship_type : String

abbrev pub name_line : CreatedNode → String
name_line n = format ("- " ∷ n.name ∷ "\n" ∷ [])

unfoldable pub prerequisite_context_for_type : AgentContext → String → String
unfolding nodes_of_type all_lines
prerequisite_context_for_type context source_type = format (
    "Domain: "
    ∷ context.domain_name
    ∷ "\n\n"
    ∷ source_type
    ∷ " Nodes (find prerequisites for these):\n"
    ∷ all_lines identified_line (nodes_of_type context.domain_graph source_type)
    ∷ "\nAvailable Knowledge Nodes:\n"
    ∷ all_lines name_line context.domain_graph.knowledge
    ∷ "\nAvailable Skill Nodes:\n"
    ∷ all_lines name_line context.domain_graph.skills
    ∷ "\nAvailable Trait Nodes:\n"
    ∷ all_lines name_line context.domain_graph.traits
    ∷ "\nAvailable Milestone Nodes:\n"
    ∷ all_lines name_line context.domain_graph.milestones
    ∷ [])

abbrev pub prerequisite_of :
    String → String → String → Option String → Option String → List PrerequisiteRelationship
prerequisite_of source_id source_name target_name (some target_id) (some rel_type) =
    record {
      source_id = source_id;
      source_name = source_name;
      target_id = target_id;
      target_name = target_name;
      relationship_type = rel_type;
    }
    ∷ []
prerequisite_of source_id source_name target_name (some target_id) none = []
prerequisite_of source_id source_name target_name none rel_type = []

-- `unwrap_or(&empty_vec)`
abbrev pub or_empty {ℓ} : {A : Type ℓ} → Option (List A) → List A
or_empty none = []
or_empty (some xs) = xs

module _ (json : Json) where
  unfoldable pub read_requires :
      AgentContext → String → String → List json.Value → List PrerequisiteRelationship
  unfolding text_at find_element_id requires_type
  read_requires context source_id source_name [] = []
  read_requires context source_id source_name (req ∷ rest) =
      let req_name = text_or json req "name" "" in
      let req_type = text_or json req "type" "" in
      prerequisite_of source_id source_name req_name (find_element_id context req_name req_type)
        (requires_type req_type)
      ++ read_requires context source_id source_name rest

  -- What a component requires, unless it is not there.
  abbrev pub required_of :
      AgentContext → String → json.Value → Option String → List PrerequisiteRelationship
  required_of context component_name prereq none = []
  required_of context component_name prereq (some source_id) =
      read_requires context source_id component_name (or_empty (array_at json prereq "requires"))

  unfoldable pub read_prerequisites :
      AgentContext → String → List json.Value → Result Abort (List PrerequisiteRelationship)
  unfolding text_at array_at find_element_id read_requires
  read_prerequisites context source_type [] = ok []
  read_prerequisites context source_type (prereq ∷ rest) =
      and_then (ok_or (text_at json prereq "component") (fault "Missing component name"))
        λ component_name.
          map_ok
            (λ later.
              required_of context component_name prereq
                (find_element_id context component_name source_type)
              ++ later)
            (read_prerequisites context source_type rest)

  unfoldable pub parse_prerequisites :
      String → AgentContext → String → Result Abort (List PrerequisiteRelationship)
  unfolding parse_object array_at read_prerequisites
  parse_prerequisites response context source_type =
      and_then (parse_object json "No JSON object found" none response) λ parsed.
        and_then
          (ok_or (array_at json parsed "prerequisites") (fault "Missing prerequisites array"))
          λ prerequisites. read_prerequisites context source_type prerequisites

module _ (env : StepEnvironment) where
  unfoldable pub analyze_prerequisites_for_type :
      AgentContext → String → Step env (List PrerequisiteRelationship)
  analyze_prerequisites_for_type context source_type = do
    response ←
        ask_model env relationship_architect
          (prerequisite_analysis context.domain_name
            (prerequisite_context_for_type context source_type))
          16384 3
    lift (parse_prerequisites env.json response context source_type)

  unfoldable pub analyze_prerequisites :
      AgentContext → List String → Step env (List PrerequisiteRelationship)
  unfolding analyze_prerequisites_for_type
  analyze_prerequisites context [] = pure []
  analyze_prerequisites context (source_type ∷ types) = do
    progress env prerequisite_mapper ("Analyzing " ∷ source_type ∷ " prerequisites..." ∷ [])
    prerequisites ← analyze_prerequisites_for_type context source_type
    later ← analyze_prerequisites context types
    pure (prerequisites ++ later)

  abbrev pub add_link_of : PrerequisiteRelationship → AgentContext → AgentContext
  add_link_of p c = record c {
    domain_graph =
        add_prerequisite
          (record {
            source_id = p.source_id;
            source_name = p.source_name;
            target_id = p.target_id;
            target_name = p.target_name;
            relationship_type = p.relationship_type;
          })
          c.domain_graph;
  }

  abbrev pub track_prerequisite : PrerequisiteRelationship → Bool → Step env ℕ
  track_prerequisite p false = pure 0
  track_prerequisite p true = do change_context env (add_link_of p); pure 1

  abbrev pub relate_prerequisite : PrerequisiteRelationship → Step env ℕ
  relate_prerequisite p = do
    is_ok ← relate env p.source_id p.target_id p.relationship_type none
    track_prerequisite p is_ok

  unfoldable pub create_prerequisite_relationships : List PrerequisiteRelationship → Step env ℕ
  unfolding add_prerequisite
  create_prerequisite_relationships [] = pure 0
  create_prerequisite_relationships (p ∷ prerequisites) = do
    one ← relate_prerequisite p
    rest ← create_prerequisite_relationships prerequisites
    pure (one + rest)

  unfoldable pub execute_prerequisite : Step env (Unit {0})
  execute_prerequisite = do
    context ← get_context env
    prerequisites ← analyze_prerequisites context ("Skill" ∷ "Milestone" ∷ [])
    progress env prerequisite_mapper
        ("Identified " ∷ decimal (length prerequisites) ∷ " prerequisite relationships" ∷ [])
    progress env prerequisite_mapper ("Creating prerequisite relationships in database..." ∷ [])
    count ← create_prerequisite_relationships prerequisites
    progress env prerequisite_mapper
        ("Created " ∷ decimal count ∷ " prerequisite relationships" ∷ [])

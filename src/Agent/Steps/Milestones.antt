-- ===== src/Agent/Steps/Milestones.antt =====
-- The generator of milestones (domains/agent/steps/milestone_generator.rs).
use atlas_of_us.Agent.Steps.Context.{add_milestone, description_of}
use atlas_of_us.Agent.Prompts.Milestones.{milestone_concepts, milestone_properties}
use atlas_of_us.Agent.Prompts.System.{milestone_designer}
use atlas_of_us.Agent.Steps.Generators.{track_nodes, progress}
use atlas_of_us.Effects.Defs.{lift, map_ok, Result, pure, ◌>>=◌, ◌>>◌}
use atlas_of_us.Text.{decimal, join, format}
use atlas_of_us.Agent.Steps.Replies.{parse_concept_list, text_or, text_at, parse_object}
use atlas_of_us.Agent.Generation.Models.{Abort, milestone_generator, AgentContext}
use atlas_of_us.Agent.Steps.Environment.{
  get_context, ask_model, make_node, run_batch, Step, StepEnvironment,
}
use atlas_of_us.Agent.Registry.Defs.{created, CreatedNode}
use atlas_of_us.Prelude.{String, none, List, [], ◌∷◌, map, length}

pub record MilestoneProperties : Type 0 where
  pub name : String
  pub description : String
  pub how_to_achieve : String

abbrev pub names_of : List CreatedNode → List String
names_of nodes = map CreatedNode.name nodes

module _ (env : StepEnvironment) where
  unfoldable pub conceptualize : AgentContext → Step env (List String)
  conceptualize context = do
    let context_str = format (
        "Existing components:\n- Knowledge: "
        ∷ join ", " (names_of context.domain_graph.knowledge)
        ∷ "\n- Skills: "
        ∷ join ", " (names_of context.domain_graph.skills)
        ∷ "\n- Traits: "
        ∷ join ", " (names_of context.domain_graph.traits)
        ∷ [])
    response ←
        ask_model env milestone_designer
          (milestone_concepts context.domain_name (description_of context) context_str) 16384 3
    lift (parse_concept_list env.json response)

  unfoldable pub parse_milestone_properties : String → String → Result Abort MilestoneProperties
  unfolding parse_object text_at
  parse_milestone_properties response concept_name =
      map_ok
        (λ (parsed : env.json.Value). record {
          name = text_or env.json parsed "name" concept_name;
          description = text_or env.json parsed "description" "";
          how_to_achieve = text_or env.json parsed "how_to_achieve" "";
        })
        (parse_object env.json "No JSON object found" none response)

  unfoldable pub generate_milestone : AgentContext → String → Step env MilestoneProperties
  unfolding parse_milestone_properties
  generate_milestone context concept = do
    response ←
        ask_model env milestone_designer (milestone_properties context.domain_name concept none)
          1024 3
    lift (parse_milestone_properties response concept)

  unfoldable pub generate_properties :
      AgentContext → List String → Step env (List MilestoneProperties)
  unfolding generate_milestone
  generate_properties context [] = pure []
  generate_properties context (c ∷ cs) = run_batch env (generate_milestone context) (c ∷ cs)

  unfoldable pub create_nodes : List MilestoneProperties → Step env (List CreatedNode)
  create_nodes [] = pure []
  create_nodes (props ∷ properties) = do
    result ← make_node env "Milestone" (
        ("name", env.json.text props.name)
        ∷ ("description", env.json.text props.description)
        ∷ ("how_to_achieve", env.json.text props.how_to_achieve)
        ∷ [])
    nodes ← create_nodes properties
    pure (created props.name result.element_id "Milestone" ∷ nodes)

  unfoldable pub execute_milestone : Step env (Unit {0})
  execute_milestone = do
    progress env milestone_generator ("Identifying milestone achievements..." ∷ [])
    context ← get_context env
    concepts ← conceptualize context
    progress env milestone_generator
        ("Found " ∷ decimal (length concepts) ∷ " milestone concepts" ∷ [])
    properties ← generate_properties context concepts
    nodes ← create_nodes properties
    track_nodes env milestone_generator "Milestone" add_milestone nodes

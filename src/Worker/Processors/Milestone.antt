-- ===== src/Worker/Processors/Milestone.antt =====
-- The processor of Milestone nodes: processors/milestone.rs of the worker.
use atlas_of_us.Prelude.{String, false, Option, some, [], ◌∷◌}
use atlas_of_us.Text.{format, lines}
use atlas_of_us.Effects.Defs.{Eff, pure, lift, ◌>>=◌, ◌>>◌, with_err}
use atlas_of_us.Worker.Job.{NodeGenerationJob, NodeGenerationResult, success}
use atlas_of_us.Worker.Services.{Services, Float, Call, Bolt, create_milestone, MilestoneProperties}
use atlas_of_us.Worker.Clients.{LlmService, generate_embedding, execute}
use atlas_of_us.Worker.Errors.{ProcessingError, neo4j, from_embedding}
use atlas_of_us.Worker.Decision.{determine_level}
use atlas_of_us.Worker.Processors.Common.{
  CreatedNode, created_node_of, assign_level, description_context, ask_properties,
}

system_prompt : String
system_prompt = lines (
    "You are an expert at creating milestone nodes for a personal development knowledge graph."
    ∷ "Generate properties for a Milestone node (an achievement or accomplishment in the domain)."
    ∷ "" ∷ "Respond with a JSON object containing:" ∷ "- \"name\": the milestone name"
    ∷ "- \"description\": 1-2 sentence description of this milestone achievement"
    ∷ "- \"how_to_achieve\": practical steps to achieve this milestone" ∷ ""
    ∷ "IMPORTANT: Only respond with valid JSON, no other text." ∷ [])

module _ (env : Services) (llm : LlmService) where
  unfoldable pub generate_properties :
      String → String → Option String → Eff (Call (Float env)) ProcessingError MilestoneProperties
  unfolding system_prompt
  generate_properties node_name domain_name domain_description =
      ask_properties env llm system_prompt
        (format (
          "Generate Milestone node properties for:\nDomain: "
          ∷ domain_name
          ∷ description_context domain_description
          ∷ "\nMilestone: "
          ∷ node_name
          ∷ []))
        (record { max_tokens = 1024; temperature = 70 }) "Failed to parse milestone properties: "
        env.decode_milestone

  unfoldable pub create_node :
      MilestoneProperties → Eff (Call (Float env)) ProcessingError CreatedNode
  create_node props = do
    embedding ← with_err from_embedding (generate_embedding env props.name)
    rows ← with_err neo4j (
        execute env create_milestone (
          ("name", Bolt.text props.name)
          ∷ ("description", Bolt.text props.description)
          ∷ ("how_to_achieve", Bolt.text props.how_to_achieve)
          ∷ ("embedding", Bolt.floats embedding)
          ∷ []))
    lift (created_node_of rows)

  -- A milestone is always created.
  unfoldable pub process :
      NodeGenerationJob → Eff (Call (Float env)) ProcessingError NodeGenerationResult
  unfolding generate_properties create_node
  process job = do
    props ← generate_properties job.node_name job.domain_name job.domain_description
    created ← create_node props
    let level = determine_level job.suggested_level job.node_name job.domain_levels
    assign_level env job level created.element_id "REQUIRES_MILESTONE"
    pure (success job.job_id created.element_id false (some level) 0)

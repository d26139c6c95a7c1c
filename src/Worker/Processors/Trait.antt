-- ===== src/Worker/Processors/Trait.antt =====
-- The processor of Trait nodes: processors/trait_proc.rs of the worker.
use atlas_of_us.Prelude.{String, Bool, true, false, Option, some, [], ◌∷◌}
use atlas_of_us.Text.{format, lines}
use atlas_of_us.Effects.Defs.{Eff, pure, lift, ◌>>=◌, ◌>>◌, with_err}
use atlas_of_us.Worker.Job.{NodeGenerationJob, NodeGenerationResult, success}
use atlas_of_us.Worker.Services.{Services, Float, Call, Bolt, create_trait, TraitProperties}
use atlas_of_us.Worker.Clients.{LlmService, generate_embedding, execute}
use atlas_of_us.Worker.Similarity.{find_similar_by_text}
use atlas_of_us.Worker.Errors.{ProcessingError, neo4j, from_embedding, from_similarity}
use atlas_of_us.Worker.Decision.{
  ConceptDecision, use_existing, determine_level, decide_concept_action, trait_node,
}
use atlas_of_us.Worker.Processors.Common.{
  CreatedNode, created_node_of, assign_level, description_context, ask_properties,
}

system_prompt : String
system_prompt = lines (
    "You are an expert at creating trait nodes for a personal development knowledge graph."
    ∷ "Generate properties for a Trait node (personality characteristic or behavioral tendency)."
    ∷ "" ∷ "Respond with a JSON object containing:" ∷ "- \"name\": the trait name"
    ∷ "- \"description\": 1-2 sentence description of this trait"
    ∷ "- \"measurement_criteria\": how to measure or assess this trait (specific, observable behaviors)"
    ∷ "" ∷ "IMPORTANT: Only respond with valid JSON, no other text." ∷ [])

module _ (env : Services) (llm : LlmService) where
  unfoldable pub generate_properties :
      String → String → Option String → Eff (Call (Float env)) ProcessingError TraitProperties
  unfolding system_prompt
  generate_properties node_name domain_name domain_description =
      ask_properties env llm system_prompt
        (format (
          "Generate Trait node properties for:\nDomain: "
          ∷ domain_name
          ∷ description_context domain_description
          ∷ "\nTrait: "
          ∷ node_name
          ∷ []))
        (record { max_tokens = 1024; temperature = 70 }) "Failed to parse trait properties: "
        env.decode_trait

  unfoldable pub create_node : TraitProperties → Eff (Call (Float env)) ProcessingError CreatedNode
  create_node props = do
    embedding ← with_err from_embedding (generate_embedding env props.name)
    rows ← with_err neo4j (
        execute env create_trait (
          ("name", Bolt.text props.name)
          ∷ ("description", Bolt.text props.description)
          ∷ ("measurement_criteria", Bolt.text props.measurement_criteria)
          ∷ ("embedding", Bolt.floats embedding)
          ∷ []))
    lift (created_node_of rows)

  -- The `match` on the decision; a trait is never generalized, only created.
  unfoldable pub carry_out :
      NodeGenerationJob → ConceptDecision → Eff (Call (Float env)) ProcessingError (String × Bool)
  unfolding generate_properties create_node
  carry_out job (use_existing element_id name) = pure (element_id, true)
  carry_out job _ = do
    props ← generate_properties job.node_name job.domain_name job.domain_description
    created ← create_node props
    pure (created.element_id, false)

  unfoldable pub process :
      NodeGenerationJob → Eff (Call (Float env)) ProcessingError NodeGenerationResult
  unfolding carry_out
  process job = do
    similar_nodes ←
        with_err from_similarity (find_similar_by_text env job.node_name (some "Trait") 3)
    decision ←
        decide_concept_action env llm job.node_name similar_nodes (trait_node env) job.domain_name
          "Trait"
    node ← carry_out job decision
    let level = determine_level job.suggested_level job.node_name job.domain_levels
    assign_level env job level node.0 "REQUIRES_TRAIT"
    pure (success job.job_id node.0 node.1 (some level) 0)

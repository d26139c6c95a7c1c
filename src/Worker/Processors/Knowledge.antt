-- ===== src/Worker/Processors/Knowledge.antt =====
-- The processor of Knowledge nodes: processors/knowledge.rs of the worker.
use atlas_of_us.Prelude.{String, Bool, true, false, Option, some, [], ◌∷◌}
use atlas_of_us.Text.{format, lines}
use atlas_of_us.Effects.Defs.{Eff, pure, lift, ◌>>=◌, ◌>>◌, with_err}
use atlas_of_us.Worker.Job.{NodeGenerationJob, NodeGenerationResult, success}
use atlas_of_us.Worker.Services.{Services, Float, Call, Bolt, create_knowledge, KnowledgeProperties}
use atlas_of_us.Worker.Clients.{LlmService, generate_embedding, execute}
use atlas_of_us.Worker.Similarity.{find_similar_by_text}
use atlas_of_us.Worker.Errors.{ProcessingError, neo4j, from_embedding, from_similarity}
use atlas_of_us.Worker.Decision.{
  ConceptDecision, use_existing, create_new, create_and_generalize, determine_level,
  decide_concept_action, standard,
}
use atlas_of_us.Worker.Processors.Common.{
  CreatedNode, created_node_of, create_generalization, assign_level, description_context,
  ask_properties,
}

system_prompt : String
system_prompt = lines (
    "You are an expert at creating knowledge nodes for a personal development knowledge graph."
    ∷ "Generate comprehensive properties for a Knowledge node following Bloom's Taxonomy levels."
    ∷ "" ∷ "Respond with a JSON object containing:" ∷ "- \"name\": the knowledge concept name"
    ∷ "- \"description\": 1-2 sentence description of this knowledge"
    ∷ "- \"how_to_learn\": practical guidance on how to learn this knowledge"
    ∷ "- \"remember_level\": what someone at Remember level can do (recall facts, definitions)"
    ∷ "- \"understand_level\": what someone at Understand level can do (explain, summarize)"
    ∷ "- \"apply_level\": what someone at Apply level can do (use knowledge in situations)"
    ∷ "- \"analyze_level\": what someone at Analyze level can do (break down, compare)"
    ∷ "- \"evaluate_level\": what someone at Evaluate level can do (judge, critique)"
    ∷ "- \"create_level\": what someone at Create level can do (design, construct new things)" ∷ ""
    ∷ "IMPORTANT: Only respond with valid JSON, no other text." ∷ [])

module _ (env : Services) (llm : LlmService) where
  unfoldable pub generate_properties :
      String → String → Option String → Eff (Call (Float env)) ProcessingError KnowledgeProperties
  unfolding system_prompt
  generate_properties node_name domain_name domain_description =
      ask_properties env llm system_prompt
        (format (
          "Generate Knowledge node properties for:\nDomain: "
          ∷ domain_name
          ∷ description_context domain_description
          ∷ "\nKnowledge concept: "
          ∷ node_name
          ∷ []))
        (record { max_tokens = 2048; temperature = 70 }) "Failed to parse knowledge properties: "
        env.decode_knowledge

  unfoldable pub create_node :
      KnowledgeProperties → Eff (Call (Float env)) ProcessingError CreatedNode
  create_node props = do
    embedding ← with_err from_embedding (generate_embedding env props.name)
    rows ← with_err neo4j (
        execute env create_knowledge (
          ("name", Bolt.text props.name)
          ∷ ("description", Bolt.text props.description)
          ∷ ("how_to_learn", Bolt.text props.how_to_learn)
          ∷ ("remember_level", Bolt.text props.remember_level)
          ∷ ("understand_level", Bolt.text props.understand_level)
          ∷ ("apply_level", Bolt.text props.apply_level)
          ∷ ("analyze_level", Bolt.text props.analyze_level)
          ∷ ("evaluate_level", Bolt.text props.evaluate_level)
          ∷ ("create_level", Bolt.text props.create_level)
          ∷ ("embedding", Bolt.floats embedding)
          ∷ []))
    lift (created_node_of rows)

  -- The `match` on the decision: the element id, and whether the node was reused.
  unfoldable pub carry_out :
      NodeGenerationJob → ConceptDecision → Eff (Call (Float env)) ProcessingError (String × Bool)
  unfolding generate_properties create_node
  carry_out job (use_existing element_id name) = pure (element_id, true)
  carry_out job create_new = do
    props ← generate_properties job.node_name job.domain_name job.domain_description
    created ← create_node props
    pure (created.element_id, false)
  carry_out job (create_and_generalize target_id target_name) = do
    props ← generate_properties job.node_name job.domain_name job.domain_description
    created ← create_node props
    create_generalization env created.element_id target_id
    pure (created.element_id, false)

  unfoldable pub process :
      NodeGenerationJob → Eff (Call (Float env)) ProcessingError NodeGenerationResult
  unfolding carry_out
  process job = do
    similar_nodes ←
        with_err from_similarity (find_similar_by_text env job.node_name (some "Knowledge") 3)
    decision ←
        decide_concept_action env llm job.node_name similar_nodes (standard env) job.domain_name
          "Knowledge"
    node ← carry_out job decision
    let level = determine_level job.suggested_level job.node_name job.domain_levels
    assign_level env job level node.0 "REQUIRES_KNOWLEDGE"
    pure (success job.job_id node.0 node.1 (some level) 0)

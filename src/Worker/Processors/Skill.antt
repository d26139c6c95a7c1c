-- ===== src/Worker/Processors/Skill.antt =====
-- The processor of Skill nodes: processors/skill.rs of the worker.
use atlas_of_us.Prelude.{String, Bool, true, false, Option, some, [], ◌∷◌}
use atlas_of_us.Text.{format, lines}
use atlas_of_us.Effects.Defs.{Eff, pure, lift, ◌>>=◌, ◌>>◌, with_err}
use atlas_of_us.Worker.Job.{NodeGenerationJob, NodeGenerationResult, success}
use atlas_of_us.Worker.Services.{Services, Float, Call, Bolt, create_skill, SkillProperties}
use atlas_of_us.Worker.Clients.{LlmService, generate_embedding, execute}
use atlas_of_us.Worker.Similarity.{find_similar_by_text}
use atlas_of_us.Worker.Errors.{ProcessingError, neo4j, from_embedding, from_similarity}
use atlas_of_us.Worker.Decision.{
  ConceptDecision, use_existing, create_new, create_and_generalize, determine_level,
  decide_concept_action, standard,
}
use atlas_of_us.Worker.Processors.Common.{
  CreatedNode, created_node_of, create_generalization, assign_level, description_context,
  ask_properties,
}

system_prompt : String
system_prompt = lines (
    "You are an expert at creating skill nodes for a personal development knowledge graph."
    ∷ "Generate comprehensive properties for a Skill node following the Dreyfus Model of skill acquisition."
    ∷ "" ∷ "Respond with a JSON object containing:" ∷ "- \"name\": the skill name"
    ∷ "- \"description\": 1-2 sentence description of this skill"
    ∷ "- \"how_to_develop\": practical guidance on how to develop this skill"
    ∷ "- \"novice_level\": what a Novice can do (follows rules rigidly, no context)"
    ∷ "- \"advanced_beginner_level\": what an Advanced Beginner can do (recognizes aspects, still rule-based)"
    ∷ "- \"competent_level\": what someone Competent can do (deliberate planning, handles complexity)"
    ∷ "- \"proficient_level\": what someone Proficient can do (holistic view, knows what's important)"
    ∷ "- \"expert_level\": what an Expert can do (intuitive, sees what's possible)" ∷ ""
    ∷ "IMPORTANT: Only respond with valid JSON, no other text." ∷ [])

module _ (env : Services) (llm : LlmService) where
  unfoldable pub generate_properties :
      String → String → Option String → Eff (Call (Float env)) ProcessingError SkillProperties
  unfolding system_prompt
  generate_properties node_name domain_name domain_description =
      ask_properties env llm system_prompt
        (format (
          "Generate Skill node properties for:\nDomain: "
          ∷ domain_name
          ∷ description_context domain_description
          ∷ "\nSkill: "
          ∷ node_name
          ∷ []))
        (record { max_tokens = 2048; temperature = 70 }) "Failed to parse skill properties: "
        env.decode_skill

  unfoldable pub create_node : SkillProperties → Eff (Call (Float env)) ProcessingError CreatedNode
  create_node props = do
    embedding ← with_err from_embedding (generate_embedding env props.name)
    rows ← with_err neo4j (
        execute env create_skill (
          ("name", Bolt.text props.name)
          ∷ ("description", Bolt.text props.description)
          ∷ ("how_to_develop", Bolt.text props.how_to_develop)
          ∷ ("novice_level", Bolt.text props.novice_level)
          ∷ ("advanced_beginner_level", Bolt.text props.advanced_beginner_level)
          ∷ ("competent_level", Bolt.text props.competent_level)
          ∷ ("proficient_level", Bolt.text props.proficient_level)
          ∷ ("expert_level", Bolt.text props.expert_level)
          ∷ ("embedding", Bolt.floats embedding)
          ∷ []))
    lift (created_node_of rows)

  -- The `match` on the decision: the element id, and whether the node was reused.
  unfoldable pub carry_out :
      NodeGenerationJob → ConceptDecision → Eff (Call (Float env)) ProcessingError (String × Bool)
  unfolding generate_properties create_node
  carry_out job (use_existing element_id name) = pure (element_id, true)
  carry_out job create_new = do
    props ← generate_properties job.node_name job.domain_name job.domain_description
    created ← create_node props
    pure (created.element_id, false)
  carry_out job (create_and_generalize target_id target_name) = do
    props ← generate_properties job.node_name job.domain_name job.domain_description
    created ← create_node props
    create_generalization env created.element_id target_id
    pure (created.element_id, false)

  unfoldable pub process :
      NodeGenerationJob → Eff (Call (Float env)) ProcessingError NodeGenerationResult
  unfolding carry_out
  process job = do
    similar_nodes ←
        with_err from_similarity (find_similar_by_text env job.node_name (some "Skill") 3)
    decision ←
        decide_concept_action env llm job.node_name similar_nodes (standard env) job.domain_name
          "Skill"
    node ← carry_out job decision
    let level = determine_level job.suggested_level job.node_name job.domain_levels
    assign_level env job level node.0 "REQUIRES_SKILL"
    pure (success job.job_id node.0 node.1 (some level) 0)

-- ===== src/Agent/Steps/Generators.antt =====
-- The generators of knowledge and of skills as a whole (domains/agent/steps/knowledge_generator.rs
-- and skill_generator.rs).
use atlas_of_us.Agent.Steps.Verification.{
  pass3_verify_matches, pass2_similarity_search, pass1_conceptualize,
}
use atlas_of_us.Text.{decimal, format}
use atlas_of_us.Agent.Steps.Creation.{
  pass7_create_generalization_relationships, pass6_create_nodes, pass5_generate_properties,
  pass4_create_missing_targets, needs_target,
}
use atlas_of_us.Effects.Defs.{pure, ◌>>=◌, ◌>>◌}
use atlas_of_us.Agent.Concepts.{VerifiedConcept}
use atlas_of_us.Agent.Registry.Defs.{CreatedNode}
use atlas_of_us.Agent.Steps.Kinds.{knowledge_kind, GeneratorKind}
use atlas_of_us.Agent.Generation.Models.{node_created, AgentContext, step_progress, AgentType}
use atlas_of_us.Agent.Steps.Environment.{
  change_context, get_context, emit_event, Step, StepEnvironment,
}
use atlas_of_us.Prelude.{ℕ, zero, suc, String, List, [], ◌∷◌, length, filter}

module _ (env : StepEnvironment) where
  unfoldable pub progress : AgentType → List String → Step env (Unit {0})
  progress agent message = emit_event env (step_progress agent (format message))

  -- The events of created nodes, and their places in the context.
  unfoldable pub track_nodes :
      AgentType
      → String
      → (CreatedNode → AgentContext → AgentContext)
      → List CreatedNode
      → Step env (Unit {0})
  track_nodes agent label add [] = pure tt
  track_nodes agent label add (node ∷ nodes) = do
    emit_event env (node_created agent node.name label node.was_reused)
    change_context env (add node)
    track_nodes agent label add nodes

  module _ (k : GeneratorKind env) where
    -- Pass 4 with its events: the concepts with their targets.
    abbrev pub create_counted : ℕ → List VerifiedConcept → Step env (List VerifiedConcept)
    create_counted zero verified = pure verified
    create_counted (suc n) verified = do
      progress k.agent ("Creating " ∷ decimal (suc n) ∷ " missing generalization targets..." ∷ [])
      made ← pass4_create_missing_targets env k verified
      track_nodes k.agent k.label k.add made.1
      pure made.0

    unfoldable pub create_missing : List VerifiedConcept → Step env (List VerifiedConcept)
    unfolding progress track_nodes
    create_missing verified = create_counted (length (filter needs_target verified)) verified

    unfoldable pub execute_generator : Step env (Unit {0})
    unfolding progress track_nodes create_missing
    execute_generator = do
      progress k.agent ("Identifying " ∷ k.noun ∷ " concepts..." ∷ [])
      context ← get_context env
      concepts ← pass1_conceptualize env k context
      progress k.agent ("Found " ∷ decimal (length concepts) ∷ " " ∷ k.noun ∷ " concepts" ∷ [])
      progress k.agent ("Searching for similar existing nodes..." ∷ [])
      matches ← pass2_similarity_search env k concepts
      progress k.agent ("Verifying node matches..." ∷ [])
      first ← pass3_verify_matches env k context matches
      verified ← create_missing first
      progress k.agent ("Generating " ∷ k.noun ∷ " properties..." ∷ [])
      properties ← pass5_generate_properties env k context verified
      progress k.agent ("Creating nodes in database..." ∷ [])
      nodes ← pass6_create_nodes env k verified properties
      pass7_create_generalization_relationships env k verified nodes
      track_nodes k.agent k.label k.add nodes

  -- `execute` of KnowledgeGeneratorStep.
  unfoldable pub execute_knowledge : Step env (Unit {0})
  unfolding execute_generator
  execute_knowledge = execute_generator (knowledge_kind env)

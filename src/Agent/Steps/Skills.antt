-- ===== src/Agent/Steps/Skills.antt =====
-- The generator of skills, pass by pass (domains/agent/steps/skill_generator.rs): its source repeats
-- that of the generator of knowledge, with the differences that `skill_kind` names.
use atlas_of_us.Agent.Steps.Context.{add_skill}
use atlas_of_us.Text.{decimal}
use atlas_of_us.Agent.Steps.Generators.{track_nodes, progress}
use atlas_of_us.Effects.Defs.{◌>>=◌, pure, ◌>>◌}
use atlas_of_us.Agent.Steps.Kinds.{SkillProperties, skill_kind}
use atlas_of_us.Agent.Registry.Defs.{CreatedNode}
use atlas_of_us.Agent.Generation.Models.{skill_generator, AgentContext}
use atlas_of_us.Agent.Concepts.{VerifiedConcept}
use atlas_of_us.Agent.Steps.Creation.{
  needs_target, pass4_create_missing_targets, pass5_generate_properties, pass6_create_nodes,
  pass7_create_generalization_relationships,
}
use atlas_of_us.Agent.Steps.Verification.{
  Matches, pass1_conceptualize, pass2_similarity_search, pass3_verify_matches,
}
use atlas_of_us.Agent.Steps.Environment.{get_context, Step, StepEnvironment}
use atlas_of_us.Prelude.{ℕ, zero, suc, String, List, [], ◌∷◌, length, filter}

module _ (env : StepEnvironment) where
  unfoldable pub skill_pass1 : AgentContext → Step env (List String)
  unfolding pass1_conceptualize
  skill_pass1 context = pass1_conceptualize env (skill_kind env) context

  unfoldable pub skill_pass2 : List String → Step env (Matches env)
  unfolding pass2_similarity_search
  skill_pass2 concepts = pass2_similarity_search env (skill_kind env) concepts

  unfoldable pub skill_pass3 : AgentContext → Matches env → Step env (List VerifiedConcept)
  unfolding pass3_verify_matches
  skill_pass3 context matches = pass3_verify_matches env (skill_kind env) context matches

  unfoldable pub skill_pass4 :
      List VerifiedConcept → Step env (List VerifiedConcept × List CreatedNode)
  unfolding pass4_create_missing_targets
  skill_pass4 verified = pass4_create_missing_targets env (skill_kind env) verified

  unfoldable pub skill_pass5 : AgentContext → List VerifiedConcept → Step env (List SkillProperties)
  unfolding pass5_generate_properties skill_kind
  skill_pass5 context verified = pass5_generate_properties env (skill_kind env) context verified

  unfoldable pub skill_pass6 :
      List VerifiedConcept → List SkillProperties → Step env (List CreatedNode)
  unfolding pass6_create_nodes skill_kind
  skill_pass6 verified properties = pass6_create_nodes env (skill_kind env) verified properties

  unfoldable pub skill_pass7 : List VerifiedConcept → List CreatedNode → Step env (Unit {0})
  unfolding pass7_create_generalization_relationships
  skill_pass7 verified nodes =
      pass7_create_generalization_relationships env (skill_kind env) verified nodes

  -- Pass 4 with its events, where targets are missing.
  abbrev pub skill_missing : ℕ → List VerifiedConcept → Step env (List VerifiedConcept)
  skill_missing zero verified = pure verified
  skill_missing (suc n) verified = do
    progress env skill_generator
        ("Creating " ∷ decimal (suc n) ∷ " missing generalization targets..." ∷ [])
    made ← skill_pass4 verified
    track_nodes env skill_generator "Skill" add_skill made.1
    pure made.0

  -- `execute` of SkillGeneratorStep.
  unfoldable pub execute_skill : Step env (Unit {0})
  unfolding skill_pass1 skill_pass2 skill_pass3 skill_pass4 skill_pass5 skill_pass6 skill_pass7
  execute_skill = do
    progress env skill_generator ("Identifying skill concepts..." ∷ [])
    context ← get_context env
    concepts ← skill_pass1 context
    progress env skill_generator ("Found " ∷ decimal (length concepts) ∷ " skill concepts" ∷ [])
    progress env skill_generator ("Searching for similar existing nodes..." ∷ [])
    matches ← skill_pass2 concepts
    progress env skill_generator ("Verifying node matches..." ∷ [])
    first ← skill_pass3 context matches
    verified ← skill_missing (length (filter needs_target first)) first
    progress env skill_generator ("Generating skill properties..." ∷ [])
    properties ← skill_pass5 context verified
    progress env skill_generator ("Creating nodes in database..." ∷ [])
    nodes ← skill_pass6 verified properties
    skill_pass7 verified nodes
    track_nodes env skill_generator "Skill" add_skill nodes

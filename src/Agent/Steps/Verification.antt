-- ===== src/Agent/Steps/Verification.antt =====
-- Passes 1 to 3 of the generators of knowledge and skills: the concepts, the nodes similar to each,
-- and what each concept becomes (domains/agent/steps/knowledge_generator.rs and
-- skill_generator.rs).
use atlas_of_us.Agent.Steps.Replies.{parse_concept_list, parse_verification_response}
use atlas_of_us.Effects.Defs.{lift, pure, ◌>>=◌, ◌>>◌}
use atlas_of_us.Text.{format}
use atlas_of_us.Agent.Steps.Kinds.{GeneratorKind}
use atlas_of_us.Floats.{ge_f64}
use atlas_of_us.Agent.Generation.Models.{
  similarity_check, verification_result, AgentContext, Similar,
}
use atlas_of_us.Agent.Concepts.{
  determine_action_by_score, create_new_node, concept_generalize, generalize_node, VerifiedConcept,
  use_node, ConceptAction,
}
use atlas_of_us.Agent.Steps.Environment.{
  ask_model, search_similar, emit_event, run_batch, Step, StepEnvironment,
}
use atlas_of_us.Prelude.{
  String, Bool, true, false, ◌||◌, Option, none, some, List, [], ◌∷◌, ◌==◌, if◌then◌else◌, length,
  find,
}

-- `&[(String, Vec<SimilarNodeResult>)]`
abbrev pub Matches : StepEnvironment → Type 0
Matches env = List (String × List (Similar env.floats.F64))

abbrev pub decision_text : ConceptAction → String
decision_text create_new_node = "create_new"
decision_text (use_node _) = "use_existing"
decision_text (generalize_node _ _ _) = "create_and_generalize"

-- What `generalizes_to` of the event says.
abbrev pub target_text : ConceptAction → Option String
target_text create_new_node = none
target_text (use_node _) = none
target_text (generalize_node _ target_name needs_creation) =
    some (format (target_name ∷ (if needs_creation then " (new)" else "") ∷ []))

abbrev pub first_score : {F : Type 0} → List (Similar F) → Option F
first_score [] = none
first_score (n ∷ _) = some n.score

module _ (env : StepEnvironment) where
  abbrev pub similar_named : String → Similar env.floats.F64 → Bool
  similar_named name n = n.name == name

  -- `n.score >= 0.95 || n.name == target_name`
  abbrev pub accepts : String → Similar env.floats.F64 → Bool
  accepts target_name n =
      ge_f64 env.floats n.score (env.floats.hundredths 95) || n.name == target_name

  -- The target as the search in the database left it: its first hit, if it is accepted.
  abbrev pub searched_target : String → String → List (Similar env.floats.F64) → VerifiedConcept
  searched_target concept target_name [] = concept_generalize concept "" target_name true
  searched_target concept target_name (found ∷ _) =
      if accepts target_name found
      then concept_generalize concept found.id target_name false
      else concept_generalize concept "" target_name true

  module _ (k : GeneratorKind env) where
    unfoldable pub pass1_conceptualize : AgentContext → Step env (List String)
    pass1_conceptualize context = do
      response ← ask_model env k.system_prompt (k.concepts_prompt context) 16384 3
      lift (parse_concept_list env.json response)

    unfoldable pub pass2_similarity_search : List String → Step env (Matches env)
    pass2_similarity_search concepts =
        run_batch env
          (λ concept. do similar ← search_similar env concept k.label 3; pure (concept, similar))
          concepts

    unfoldable pub report : String → ConceptAction → Step env (Unit {0})
    report concept action =
        if k.reports
        then emit_event env
            (verification_result k.agent concept (decision_text action) (target_text action))
        else pure tt

    -- `if let Some(node) = similar_nodes.iter().find(…) { … } else { … }`
    unfoldable pub find_target :
        String → String → Option (Similar env.floats.F64) → Step env VerifiedConcept
    find_target concept target_name (some node) =
        pure (concept_generalize concept node.id target_name false)
    find_target concept target_name none = do
      search_results ← search_similar env target_name k.label 1
      pure (searched_target concept target_name search_results)

    -- A decision with its target, if it is to generalize.
    abbrev pub resolve_action :
        String
        → List (Similar env.floats.F64)
        → VerifiedConcept
        → ConceptAction
        → Step env VerifiedConcept
    resolve_action concept similar_nodes decision create_new_node = pure decision
    resolve_action concept similar_nodes decision (use_node _) = pure decision
    resolve_action concept similar_nodes decision (generalize_node _ target_name _) =
        find_target concept target_name (find (similar_named target_name) similar_nodes)

    unfoldable pub resolve_target :
        String → List (Similar env.floats.F64) → VerifiedConcept → Step env VerifiedConcept
    unfolding find_target
    resolve_target concept similar_nodes decision =
        resolve_action concept similar_nodes decision decision.action

    -- What the language model decides of a concept with a moderate match.
    unfoldable pub consult :
        AgentContext → String → List (Similar env.floats.F64) → Step env VerifiedConcept
    unfolding resolve_target
    consult context concept similar_nodes = do
      response ←
          ask_model env k.system_prompt (k.verify_prompt concept context.domain_name similar_nodes)
            512 2
      decision ← lift (parse_verification_response env.json response concept)
      resolve_target concept similar_nodes decision

    abbrev pub decide_concept :
        AgentContext
        → String
        → List (Similar env.floats.F64)
        → Option VerifiedConcept
        → Step env VerifiedConcept
    decide_concept context concept similar_nodes (some decision) = pure decision
    decide_concept context concept similar_nodes none = consult context concept similar_nodes

    unfoldable pub verify_concept :
        AgentContext → String → List (Similar env.floats.F64) → Step env VerifiedConcept
    unfolding consult report
    verify_concept context concept similar_nodes = do
      emit_event env
          (similarity_check k.agent concept (length similar_nodes) (first_score similar_nodes))
      decision ←
          decide_concept context concept similar_nodes
            (determine_action_by_score env.floats concept similar_nodes)
      report concept decision.action
      pure decision

    unfoldable pub pass3_verify_matches :
        AgentContext → Matches env → Step env (List VerifiedConcept)
    unfolding verify_concept
    pass3_verify_matches context [] = pure []
    pass3_verify_matches context ((concept, similar_nodes) ∷ matches) = do
      decision ← verify_concept context concept similar_nodes
      verified ← pass3_verify_matches context matches
      pure (decision ∷ verified)

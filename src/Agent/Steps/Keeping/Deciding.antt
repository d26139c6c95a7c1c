-- ===== src/Agent/Steps/Keeping/Deciding.antt =====
-- Passes 1 to 3 of the generators leave the nodes of other agents alone.
use atlas_of_us.Agent.Steps.Within.{owned}
use atlas_of_us.Agent.Registry.Defs.{CreatedNode}
use atlas_of_us.Agent.Steps.Within.{
  Stays-lift, Stays-change, ask_model-Stays, search_similar-Stays, Stays-bind, Stays-emit, Stays-if,
  Stays-pure, run_batch-Stays, stays_rules, Stays,
}
use atlas_of_us.Agent.Steps.Verification.{
  similar_named, find_target, decide_concept, resolve_action, Matches, consult, pass1_conceptualize,
  pass2_similarity_search, pass3_verify_matches, report,
}
use atlas_of_us.Agent.Steps.Generators.{progress, track_nodes}
use atlas_of_us.Agent.Steps.Kinds.{GeneratorKind}
use atlas_of_us.Agent.Generation.Models.{AgentContext, Similar, AgentType}
use atlas_of_us.Agent.Steps.Environment.{StepEnvironment}
use atlas_of_us.Agent.Concepts.{
  ConceptAction, VerifiedConcept, create_new_node, use_node, generalize_node,
}
use atlas_of_us.Prelude.{String, ◌≡◌, refl, ◌≢◌, Option, none, some, List, [], ◌∷◌, find}

module _ (env : StepEnvironment) {t : AgentType} where
  pub progress-Stays : (a : AgentType) (message : List String) → Stays t (progress env a message)
  unfolding progress
  progress-Stays a message = Stays-emit env _ refl

  pub track_nodes-Stays :
      (label : String) (add : CreatedNode → AgentContext → AgentContext) (nodes : List CreatedNode)
      → ((n : CreatedNode) (u : AgentType) (c : AgentContext)
          → u ≢ t
          → owned u (add n c).domain_graph ≡ owned u c.domain_graph)
      → Stays t (track_nodes env t label add nodes)
  unfolding track_nodes
  track_nodes-Stays label add [] keeps = Stays-pure _
  track_nodes-Stays label add (n ∷ ns) keeps = Stays-bind _ _ (Stays-emit env _ refl) (λ _.
      Stays-bind _ _ (Stays-change env (add n) (keeps n))
        (λ _. track_nodes-Stays label add ns keeps))

module _ (env : StepEnvironment) (k : GeneratorKind env) {t : AgentType} where
  pub pass1_conceptualize-Stays : (c : AgentContext) → Stays t (pass1_conceptualize env k c)
  unfolding pass1_conceptualize
  pass1_conceptualize-Stays c = search stays_rules

  pub pass2_similarity_search-Stays :
      (concepts : List String) → Stays t (pass2_similarity_search env k concepts)
  unfolding pass2_similarity_search
  pass2_similarity_search-Stays concepts =
      run_batch-Stays env _ concepts
        (λ concept. Stays-bind _ _ (search_similar-Stays env concept k.label 3) (λ s. Stays-pure _))

  resolve_target-Stays :
      (concept : String) (similar : List (Similar env.floats.F64)) (decision : VerifiedConcept)
      (action : ConceptAction)
      → Stays t (resolve_action env k concept similar decision action)
  resolve_target-Stays concept similar decision create_new_node = Stays-pure _
  resolve_target-Stays concept similar decision (use_node _) = Stays-pure _
  resolve_target-Stays concept similar decision (generalize_node _ target _) =
      go (find (similar_named env target) similar)
    where
      go : (o : Option (Similar env.floats.F64)) → Stays t (find_target env k concept target o)
      go (some n) = unfold find_target in Stays-pure _
      go none = unfold find_target in (search stays_rules)

  consult-Stays :
      (c : AgentContext) (concept : String) (similar : List (Similar env.floats.F64))
      → Stays t (consult env k c concept similar)
  unfolding consult
  consult-Stays c concept similar =
      Stays-bind _ _ (ask_model-Stays env _ _ _ _)
        (λ r. Stays-bind _ _ (Stays-lift _) (λ d. resolve_target-Stays concept similar d d.action))

  decide_concept-Stays :
      (c : AgentContext) (concept : String) (similar : List (Similar env.floats.F64))
      (o : Option VerifiedConcept)
      → Stays t (decide_concept env k c concept similar o)
  decide_concept-Stays c concept similar (some d) = Stays-pure _
  decide_concept-Stays c concept similar none = consult-Stays c concept similar

  report-Stays : (concept : String) (action : ConceptAction) → Stays t (report env k concept action)
  unfolding report
  report-Stays concept action = Stays-if k.reports _ _ (Stays-emit env _ refl) (Stays-pure _)

  pub pass3_verify_matches-Stays :
      (c : AgentContext) (matches : Matches env) → Stays t (pass3_verify_matches env k c matches)
  unfolding pass3_verify_matches
  pass3_verify_matches-Stays c [] = Stays-pure _
  pass3_verify_matches-Stays c ((concept, similar) ∷ matches) =
      Stays-bind _ _
        (Stays-bind _ _ (Stays-emit env _ refl) (λ _.
          Stays-bind _ _ (decide_concept-Stays c concept similar _)
            (λ d. Stays-bind _ _ (report-Stays concept d.action) (λ _. Stays-pure _))))
        (λ d. Stays-bind _ _ (pass3_verify_matches-Stays c matches) (λ ds. Stays-pure _))

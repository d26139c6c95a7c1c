-- ===== src/Agent/Steps/Keeping/Generators.antt =====
-- The generators of knowledge and of skills write only their own nodes.
use atlas_of_us.Agent.Steps.Skills.{execute_skill}
use atlas_of_us.Agent.Steps.Within.{Stays-emit}
use atlas_of_us.Agent.Steps.Keeping.Deciding.{
  progress-Stays, pass3_verify_matches-Stays, pass2_similarity_search-Stays,
  pass1_conceptualize-Stays, track_nodes-Stays,
}
use atlas_of_us.Agent.Steps.Keeping.Creating.{
  pass7-Stays, pass6_create_nodes-Stays, create_all_targets-Stays, generate_all-Stays,
}
use atlas_of_us.Agent.Steps.Within.{Stays-get, Stays-pure, Stays-bind, Stays}
use atlas_of_us.Agent.Concepts.{VerifiedConcept}
use atlas_of_us.Agent.Steps.Within.{owned}
use atlas_of_us.Agent.Steps.Creation.{pass4_create_missing_targets, pass5_generate_properties}
use atlas_of_us.Agent.Steps.Generators.{
  track_nodes, progress, create_counted, create_missing, execute_generator, execute_knowledge,
}
use atlas_of_us.Agent.Steps.Kinds.{knowledge_kind, skill_kind, GeneratorKind}
use atlas_of_us.Agent.Registry.Defs.{CreatedNode}
use atlas_of_us.Agent.Steps.Environment.{StepEnvironment}
use atlas_of_us.Agent.Steps.Context.{add_knowledge, add_skill}
use atlas_of_us.Agent.Generation.Models.{
  AgentContext, AgentType, domain_architect, knowledge_generator, skill_generator, trait_generator,
  milestone_generator, level_distributor, prerequisite_mapper,
}
use atlas_of_us.Prelude.{ℕ, zero, suc, ◌≡◌, refl, ◌≢◌, List}

-- A way to add a node that writes only the nodes of agent `t`.
abbrev pub AddsFor : AgentType → (CreatedNode → AgentContext → AgentContext) → Type 0
AddsFor t add =
    (n : CreatedNode) (u : AgentType) (c : AgentContext)
    → u ≢ t
    → owned u (add n c).domain_graph ≡ owned u c.domain_graph

add_knowledge-AddsFor : AddsFor knowledge_generator add_knowledge
add_knowledge-AddsFor n domain_architect c ne = refl
add_knowledge-AddsFor n knowledge_generator c ne = absurd (ne refl)
add_knowledge-AddsFor n skill_generator c ne = refl
add_knowledge-AddsFor n trait_generator c ne = refl
add_knowledge-AddsFor n milestone_generator c ne = refl
add_knowledge-AddsFor n level_distributor c ne = refl
add_knowledge-AddsFor n prerequisite_mapper c ne = refl

add_skill-AddsFor : AddsFor skill_generator add_skill
add_skill-AddsFor n domain_architect c ne = refl
add_skill-AddsFor n knowledge_generator c ne = refl
add_skill-AddsFor n skill_generator c ne = absurd (ne refl)
add_skill-AddsFor n trait_generator c ne = refl
add_skill-AddsFor n milestone_generator c ne = refl
add_skill-AddsFor n level_distributor c ne = refl
add_skill-AddsFor n prerequisite_mapper c ne = refl

module _ (env : StepEnvironment) (k : GeneratorKind env) (adds : AddsFor k.agent k.add) where
  create_counted-Stays :
      (n : ℕ) (verified : List VerifiedConcept) → Stays k.agent (create_counted env k n verified)
  unfolding pass4_create_missing_targets
  create_counted-Stays zero verified = Stays-pure _
  create_counted-Stays (suc n) verified = Stays-bind _ _ (progress-Stays env _ _) (λ _.
      Stays-bind _ _ (create_all_targets-Stays env k _ verified) (λ made.
        Stays-bind _ _ (track_nodes-Stays env k.label k.add made.1 adds) (λ _. Stays-pure _)))

  create_missing-Stays :
      (verified : List VerifiedConcept) → Stays k.agent (create_missing env k verified)
  unfolding create_missing
  create_missing-Stays verified = create_counted-Stays _ verified

  pass5-Stays :
      (c : AgentContext) (verified : List VerifiedConcept)
      → Stays k.agent (pass5_generate_properties env k c verified)
  unfolding pass5_generate_properties
  pass5-Stays c verified = generate_all-Stays env k c _

  execute_generator-Stays : Stays k.agent (execute_generator env k)
  unfolding execute_generator
  execute_generator-Stays = Stays-bind _ _ (Stays-emit env _ refl) λ _.
      Stays-bind _ _ (Stays-get env) λ c.
        Stays-bind _ _ (pass1_conceptualize-Stays env k c) λ concepts.
          Stays-bind _ _ (Stays-emit env _ refl) λ _. Stays-bind _ _ (Stays-emit env _ refl) λ _.
            Stays-bind _ _ (pass2_similarity_search-Stays env k concepts) λ matches.
              Stays-bind _ _ (Stays-emit env _ refl) λ _.
                Stays-bind _ _ (pass3_verify_matches-Stays env k c matches) λ first.
                  Stays-bind _ _ (create_missing-Stays first) λ verified.
                    Stays-bind _ _ (Stays-emit env _ refl) λ _.
                      Stays-bind _ _ (pass5-Stays c verified) λ ps.
                        Stays-bind _ _ (Stays-emit env _ refl) λ _.
                          Stays-bind _ _ (pass6_create_nodes-Stays env k verified ps) λ nodes.
                            Stays-bind _ _ (pass7-Stays env k verified nodes)
                              λ _. track_nodes-Stays env k.label k.add nodes adds

module _ (env : StepEnvironment) where
  pub execute_knowledge-Stays : Stays knowledge_generator (execute_knowledge env)
  unfolding execute_knowledge knowledge_kind
  execute_knowledge-Stays = execute_generator-Stays env (knowledge_kind env) add_knowledge-AddsFor

  pub execute_skill-Stays : Stays skill_generator (execute_skill env)
  unfolding execute_skill skill_kind execute_generator create_missing progress track_nodes
  execute_skill-Stays = execute_generator-Stays env (skill_kind env) add_skill-AddsFor

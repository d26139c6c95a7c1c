-- ===== src/Agent/Steps/Keeping/Traits.antt =====
-- The generators of traits and of milestones write only their own nodes.
use atlas_of_us.Agent.Steps.Generators.{progress}
use atlas_of_us.Agent.Steps.Keeping.Deciding.{track_nodes-Stays}
use atlas_of_us.Agent.Registry.Defs.{CreatedNode}
use atlas_of_us.Agent.Steps.Verification.{Matches}
use atlas_of_us.Agent.Steps.Within.{
  run_batch-Stays, Stays-get, Stays-raise, stays_rules, Stays-emit, make_node-Stays, Stays-bind,
  Stays-pure, Stays,
}
use atlas_of_us.Agent.Steps.Milestones.{
  generate_milestone, MilestoneProperties, conceptualize, create_nodes, generate_properties,
  execute_milestone,
}
use atlas_of_us.Agent.Steps.Traits.{
  create_next_trait, create_trait_for, generate_trait, generate_traits, pass4_trait_properties,
  pass2_similar_traits, TraitProperties, decide_trait, pass1_trait_concepts, pass3_verify_traits,
  pass5_create_traits, execute_trait,
}
use atlas_of_us.Agent.Steps.Context.{add_milestone, add_trait}
use atlas_of_us.Agent.Steps.Environment.{Step, StepEnvironment}
use atlas_of_us.Agent.Steps.Keeping.Generators.{AddsFor}
use atlas_of_us.Agent.Generation.Models.{
  Similar, AgentContext, AgentType, domain_architect, knowledge_generator, skill_generator,
  trait_generator, milestone_generator, level_distributor, prerequisite_mapper,
}
use atlas_of_us.Agent.Concepts.{
  ConceptAction, VerifiedConcept, create_new_node, use_node, generalize_node,
}
use atlas_of_us.Prelude.{String, refl, List, [], ◌∷◌}

add_trait-AddsFor : AddsFor trait_generator add_trait
add_trait-AddsFor n domain_architect c ne = refl
add_trait-AddsFor n knowledge_generator c ne = refl
add_trait-AddsFor n skill_generator c ne = refl
add_trait-AddsFor n trait_generator c ne = absurd (ne refl)
add_trait-AddsFor n milestone_generator c ne = refl
add_trait-AddsFor n level_distributor c ne = refl
add_trait-AddsFor n prerequisite_mapper c ne = refl

add_milestone-AddsFor : AddsFor milestone_generator add_milestone
add_milestone-AddsFor n domain_architect c ne = refl
add_milestone-AddsFor n knowledge_generator c ne = refl
add_milestone-AddsFor n skill_generator c ne = refl
add_milestone-AddsFor n trait_generator c ne = refl
add_milestone-AddsFor n milestone_generator c ne = absurd (ne refl)
add_milestone-AddsFor n level_distributor c ne = refl
add_milestone-AddsFor n prerequisite_mapper c ne = refl

module _ (env : StepEnvironment) {t : AgentType} where
  decide_trait-Stays :
      (c : AgentContext) (concept : String) (similar : List (Similar env.floats.F64))
      → Stays t (decide_trait env c concept similar)
  unfolding decide_trait
  decide_trait-Stays c concept [] = Stays-pure _
  decide_trait-Stays c concept (top ∷ rest) = search stays_rules

  pass3_verify_traits-Stays :
      (c : AgentContext) (matches : Matches env) → Stays t (pass3_verify_traits env c matches)
  unfolding pass3_verify_traits
  pass3_verify_traits-Stays c [] = Stays-pure _
  pass3_verify_traits-Stays c ((concept, similar) ∷ matches) =
      Stays-bind _ _ (Stays-emit env _ refl) (λ _.
        Stays-bind _ _ (decide_trait-Stays c concept similar)
          (λ d. Stays-bind _ _ (pass3_verify_traits-Stays c matches) (λ ds. Stays-pure _)))

  generate_traits-Stays : (concepts : List VerifiedConcept) → Stays t (generate_traits env concepts)
  generate_traits-Stays [] = Stays-pure _
  generate_traits-Stays (d ∷ ds) = run_batch-Stays env _ _ one
    where
      one : (d : VerifiedConcept) → Stays t (generate_trait env d)
      one d = unfold generate_trait in (search stays_rules)

  create_next_trait-Stays :
      (properties : List TraitProperties)
      (rest : List TraitProperties → Step env (List CreatedNode))
      → ((ps : List TraitProperties) → Stays t (rest ps))
      → Stays t (create_next_trait env properties rest)
  create_next_trait-Stays [] rest later = Stays-raise _
  create_next_trait-Stays (p ∷ ps) rest later =
      Stays-bind _ _ (make_node-Stays env _ _)
        (λ r. Stays-bind _ _ (later ps) (λ nodes. Stays-pure _))

  create_trait_for-Stays :
      (action : ConceptAction) (name : String) (properties : List TraitProperties)
      (rest : List TraitProperties → Step env (List CreatedNode))
      → ((ps : List TraitProperties) → Stays t (rest ps))
      → Stays t (create_trait_for env action name properties rest)
  create_trait_for-Stays (use_node id) name ps rest later =
      Stays-bind _ _ (later ps) (λ nodes. Stays-pure _)
  create_trait_for-Stays create_new_node name ps rest later = create_next_trait-Stays ps rest later
  create_trait_for-Stays (generalize_node _ _ _) name ps rest later = later ps

  pass5_create_traits-Stays :
      (verified : List VerifiedConcept) (properties : List TraitProperties)
      → Stays t (pass5_create_traits env verified properties)
  unfolding pass5_create_traits
  pass5_create_traits-Stays [] ps = Stays-pure _
  pass5_create_traits-Stays (d ∷ ds) ps =
      create_trait_for-Stays d.action d.name ps _ (pass5_create_traits-Stays ds)

  generate_properties-Stays :
      (c : AgentContext) (concepts : List String) → Stays t (generate_properties env c concepts)
  unfolding generate_properties
  generate_properties-Stays c [] = Stays-pure _
  generate_properties-Stays c (d ∷ ds) = run_batch-Stays env _ _ one
    where
      one : (d : String) → Stays t (generate_milestone env c d)
      one d = unfold generate_milestone in (search stays_rules)

  create_nodes-Stays :
      (properties : List MilestoneProperties) → Stays t (create_nodes env properties)
  unfolding create_nodes
  create_nodes-Stays [] = Stays-pure _
  create_nodes-Stays (p ∷ ps) =
      Stays-bind _ _ (make_node-Stays env _ _)
        (λ r. Stays-bind _ _ (create_nodes-Stays ps) (λ nodes. Stays-pure _))

module _ (env : StepEnvironment) where
  pub execute_trait-Stays : Stays trait_generator (execute_trait env)
  unfolding progress execute_trait pass1_trait_concepts pass2_similar_traits pass4_trait_properties
  execute_trait-Stays = Stays-bind _ _ (Stays-emit env _ refl) λ _.
      Stays-bind _ _ (Stays-get env) λ c. Stays-bind _ _ (search stays_rules) λ concepts.
        Stays-bind _ _ (Stays-emit env _ refl) λ _.
          Stays-bind _ _ (run_batch-Stays env _ concepts (λ concept. search stays_rules)) λ matches.
            Stays-bind _ _ (pass3_verify_traits-Stays env c matches) λ verified.
              Stays-bind _ _ (generate_traits-Stays env _) λ ps.
                Stays-bind _ _ (pass5_create_traits-Stays env verified ps)
                  λ nodes. track_nodes-Stays env "Trait" add_trait nodes add_trait-AddsFor

  pub execute_milestone-Stays : Stays milestone_generator (execute_milestone env)
  unfolding progress execute_milestone conceptualize
  execute_milestone-Stays = Stays-bind _ _ (Stays-emit env _ refl) λ _.
      Stays-bind _ _ (Stays-get env) λ c. Stays-bind _ _ (search stays_rules) λ concepts.
        Stays-bind _ _ (Stays-emit env _ refl) λ _.
          Stays-bind _ _ (generate_properties-Stays env c concepts) λ ps.
            Stays-bind _ _ (create_nodes-Stays env ps)
              λ nodes. track_nodes-Stays env "Milestone" add_milestone nodes add_milestone-AddsFor

-- ===== src/Agent/Steps/Keeping/Creating.antt =====
-- Passes 4 to 7 of the generators leave the nodes of other agents alone.
use atlas_of_us.Agent.Steps.Within.{owned}
use atlas_of_us.Agent.Registry.Defs.{GeneralizationLink, CreatedNode}
use atlas_of_us.Agent.Steps.Within.{
  relate-Stays, Stays-change, Stays-lift, make_node-Stays, run_batch-Stays, Stays-bind, Stays-raise,
  Stays-pure, stays_rules, Stays,
}
use atlas_of_us.Agent.Steps.Creation.{
  track_if, add_link, generate_one, create_all_targets, create_for, create_next, generate_all,
  link_concept, create_targets, generate_target, link_target, pass6_create_nodes,
  pass7_create_generalization_relationships,
}
use atlas_of_us.Agent.Steps.Kinds.{GeneratorKind}
use atlas_of_us.Agent.Steps.Environment.{Step, StepEnvironment}
use atlas_of_us.Agent.Generation.Models.{
  AgentContext, AgentType, domain_architect, knowledge_generator, skill_generator, trait_generator,
  milestone_generator, level_distributor, prerequisite_mapper,
}
use atlas_of_us.Agent.Concepts.{
  ConceptAction, VerifiedConcept, create_new_node, use_node, generalize_node,
}
use atlas_of_us.Prelude.{ℕ, String, ◌≡◌, refl, ◌≢◌, Bool, true, false, List, [], ◌∷◌}

module _ (env : StepEnvironment) (k : GeneratorKind env) {t : AgentType} where
  create_targets-Stays :
      (properties : List (ℕ × String × k.Properties)) (verified : List VerifiedConcept)
      → Stays t (create_targets env k properties verified)
  unfolding create_targets
  create_targets-Stays [] verified = Stays-pure _
  create_targets-Stays ((idx, name, props) ∷ properties) verified =
      Stays-bind _ _ (make_node-Stays env _ _)
        (λ r. Stays-bind _ _ (create_targets-Stays properties _) (λ rest. Stays-pure _))

  generate_target-Stays : (target : ℕ × String) → Stays t (generate_target env k target)
  unfolding generate_target
  generate_target-Stays (idx, name) = search stays_rules

  pub create_all_targets-Stays :
      (targets : List (ℕ × String)) (verified : List VerifiedConcept)
      → Stays t (create_all_targets env k targets verified)
  create_all_targets-Stays [] verified = Stays-pure _
  create_all_targets-Stays (target ∷ targets) verified =
      Stays-bind _ _ (run_batch-Stays env _ _ generate_target-Stays)
        (λ properties. create_targets-Stays properties verified)

  pub generate_all-Stays :
      (c : AgentContext) (concepts : List VerifiedConcept) → Stays t (generate_all env k c concepts)
  generate_all-Stays c [] = Stays-pure _
  generate_all-Stays c (d ∷ ds) = run_batch-Stays env _ _ one
    where
      one : (d : VerifiedConcept) → Stays t (generate_one env k c d)
      one d = unfold generate_one in (search stays_rules)

  create_next-Stays :
      (properties : List k.Properties) (rest : List k.Properties → Step env (List CreatedNode))
      → ((ps : List k.Properties) → Stays t (rest ps))
      → Stays t (create_next env k properties rest)
  create_next-Stays [] rest later = Stays-raise _
  create_next-Stays (p ∷ ps) rest later =
      Stays-bind _ _ (make_node-Stays env _ _)
        (λ r. Stays-bind _ _ (later ps) (λ nodes. Stays-pure _))

  create_for-Stays :
      (action : ConceptAction) (name : String) (properties : List k.Properties)
      (rest : List k.Properties → Step env (List CreatedNode))
      → ((ps : List k.Properties) → Stays t (rest ps))
      → Stays t (create_for env k action name properties rest)
  create_for-Stays (use_node id) name ps rest later =
      Stays-bind _ _ (later ps) (λ nodes. Stays-pure _)
  create_for-Stays create_new_node name ps rest later = create_next-Stays ps rest later
  create_for-Stays (generalize_node _ _ _) name ps rest later = create_next-Stays ps rest later

  pub pass6_create_nodes-Stays :
      (verified : List VerifiedConcept) (properties : List k.Properties)
      → Stays t (pass6_create_nodes env k verified properties)
  unfolding pass6_create_nodes
  pass6_create_nodes-Stays [] ps = Stays-pure _
  pass6_create_nodes-Stays (d ∷ ds) ps =
      create_for-Stays d.action d.name ps _ (pass6_create_nodes-Stays ds)

  link_target-Stays :
      (source : CreatedNode) (id name : String) → Stays t (link_target env k source id name)
  unfolding link_target
  link_target-Stays source id name = Stays-bind _ _ (relate-Stays env _ _ _ _) (λ b. go _ b)
    where
      kept :
          (link : GeneralizationLink) (u : AgentType) (c : AgentContext)
          → u ≢ t
          → owned u (add_link env k link c).domain_graph ≡ owned u c.domain_graph
      kept link domain_architect c ne = refl
      kept link knowledge_generator c ne = refl
      kept link skill_generator c ne = refl
      kept link trait_generator c ne = refl
      kept link milestone_generator c ne = refl
      kept link level_distributor c ne = refl
      kept link prerequisite_mapper c ne = refl

      go : (link : GeneralizationLink) (b : Bool) → Stays t (track_if env k b (add_link env k link))
      go link true = Stays-change env _ (kept link)
      go link false = Stays-pure _

  link_concept-Stays :
      (action : ConceptAction) (name : String) (nodes : List CreatedNode)
      → Stays t (link_concept env k action name nodes)
  link_concept-Stays (use_node _) name nodes = Stays-pure _
  link_concept-Stays create_new_node name nodes = Stays-pure _
  link_concept-Stays (generalize_node id target _) name nodes =
      Stays-bind _ _ (Stays-lift _) (λ source. link_target-Stays source id target)

  pub pass7-Stays :
      (verified : List VerifiedConcept) (nodes : List CreatedNode)
      → Stays t (pass7_create_generalization_relationships env k verified nodes)
  unfolding pass7_create_generalization_relationships
  pass7-Stays [] nodes = Stays-pure _
  pass7-Stays (d ∷ ds) nodes =
      Stays-bind _ _ (link_concept-Stays d.action d.name nodes) (λ _. pass7-Stays ds nodes)

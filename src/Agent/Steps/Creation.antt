-- ===== src/Agent/Steps/Creation.antt =====
-- Passes 4 to 7 of the generators of knowledge and skills: missing targets, properties, nodes, and
-- relationships (domains/agent/steps/knowledge_generator.rs and skill_generator.rs).
use atlas_of_us.Text.{format}
use atlas_of_us.Agent.Generation.Models.{fault, AgentContext}
use atlas_of_us.Agent.Steps.Kinds.{GeneratorKind}
use atlas_of_us.Effects.Defs.{ok_or, lift, ◌>>◌, pure, raise, ◌>>=◌, unwrap_or}
use atlas_of_us.Agent.Steps.Environment.{
  change_context, ask_model, make_node, relate, run_batch, Step, StepEnvironment,
}
use atlas_of_us.Agent.Registry.Defs.{
  GeneralizationLink, add_generalization, created, reused, CreatedNode,
}
use atlas_of_us.Agent.Concepts.{
  create_new_node, use_node, generalize_node, ConceptAction, VerifiedConcept,
}
use atlas_of_us.Prelude.{
  ℕ, zero, suc, String, Bool, true, false, Option, none, some, List, [], ◌∷◌, ◌==◌, if◌then◌else◌,
  find, filter,
}

-- `CreateAndGeneralize { needs_creation: true, .. }`
abbrev pub needs_creation : ConceptAction → Bool
needs_creation (generalize_node _ _ flag) = flag
needs_creation create_new_node = false
needs_creation (use_node _) = false

abbrev pub needs_target : VerifiedConcept → Bool
needs_target c = needs_creation c.action

-- `!matches!(c.action, ConceptAction::UseExisting { .. })`
abbrev pub is_new : ConceptAction → Bool
is_new (generalize_node _ _ _) = true
is_new create_new_node = true
is_new (use_node _) = false

abbrev pub needs_node : VerifiedConcept → Bool
needs_node c = is_new c.action

abbrev pub target_of : ConceptAction → Option String
target_of (generalize_node _ target_name _) = some target_name
target_of create_new_node = none
target_of (use_node _) = none

abbrev pub target_name_of : VerifiedConcept → Option String
target_name_of c = target_of c.action

-- The missing targets with the indices of their concepts, counted from `idx`.
unfoldable pub targets_from : ℕ → List VerifiedConcept → List (ℕ × String)
targets_from idx [] = []
targets_from idx (c ∷ cs) =
    let rest = targets_from (suc idx) cs in
    if needs_target c then (idx, unwrap_or (target_name_of c) "") ∷ rest else rest

-- `verified[idx].action = action` for an index in range.
unfoldable pub set_action : ℕ → ConceptAction → List VerifiedConcept → List VerifiedConcept
set_action idx action [] = []
set_action zero action (c ∷ cs) = record c { action = action } ∷ cs
set_action (suc idx) action (c ∷ cs) = c ∷ set_action idx action cs

abbrev pub has_created_name : String → CreatedNode → Bool
has_created_name name n = n.name == name

module _ (env : StepEnvironment) (k : GeneratorKind env) where
  unfoldable pub create_targets :
      List (ℕ × String × k.Properties)
      → List VerifiedConcept
      → Step env (List VerifiedConcept × List CreatedNode)
  unfolding set_action
  create_targets [] verified = pure (verified, [])
  create_targets ((idx, target_name, props) ∷ properties) verified = do
    result ← make_node env k.label (k.node_properties props)
    rest ←
        create_targets properties
          (set_action idx (generalize_node result.element_id target_name false) verified)
    pure (rest.0, created target_name result.element_id k.label ∷ rest.1)

  -- One future of pass 4.
  unfoldable pub generate_target : ℕ × String → Step env (ℕ × String × k.Properties)
  generate_target (idx, target_name) = do
    response ← ask_model env k.system_prompt (k.generic_prompt target_name) 2048 3
    props ← lift (k.parse_properties response target_name)
    pure (idx, target_name, props)

  abbrev pub create_all_targets :
      List (ℕ × String) → List VerifiedConcept → Step env (List VerifiedConcept × List CreatedNode)
  create_all_targets [] verified = pure (verified, [])
  create_all_targets (target ∷ targets) verified = do
    properties ← run_batch env generate_target (target ∷ targets)
    create_targets properties verified

  unfoldable pub pass4_create_missing_targets :
      List VerifiedConcept → Step env (List VerifiedConcept × List CreatedNode)
  unfolding targets_from create_targets generate_target
  pass4_create_missing_targets verified = create_all_targets (targets_from 0 verified) verified

  -- One future of pass 5.
  unfoldable pub generate_one : AgentContext → VerifiedConcept → Step env k.Properties
  generate_one context concept = do
    response ←
        ask_model env k.system_prompt
          (k.properties_prompt context.domain_name concept.name (target_name_of concept)) 2048 3
    lift (k.parse_properties response concept.name)

  abbrev pub generate_all : AgentContext → List VerifiedConcept → Step env (List k.Properties)
  generate_all context [] = pure []
  generate_all context (c ∷ cs) = run_batch env (generate_one context) (c ∷ cs)

  unfoldable pub pass5_generate_properties :
      AgentContext → List VerifiedConcept → Step env (List k.Properties)
  unfolding generate_one
  pass5_generate_properties context verified = generate_all context (filter needs_node verified)

  -- A node with the next properties, and the rest of the pass with those left.
  abbrev pub create_next :
      List k.Properties
      → (List k.Properties → Step env (List CreatedNode))
      → Step env (List CreatedNode)
  create_next [] rest = raise (fault k.missing)
  create_next (props ∷ properties) rest = do
    result ← make_node env k.label (k.node_properties props)
    nodes ← rest properties
    pure (created (k.name_of props) result.element_id k.label ∷ nodes)

  -- The node of one concept, by its action.
  abbrev pub create_for :
      ConceptAction
      → String
      → List k.Properties
      → (List k.Properties → Step env (List CreatedNode))
      → Step env (List CreatedNode)
  create_for (use_node element_id) name properties rest = do
    nodes ← rest properties
    pure (reused name element_id k.label ∷ nodes)
  create_for create_new_node name properties rest = create_next properties rest
  create_for (generalize_node _ _ _) name properties rest = create_next properties rest

  unfoldable pub pass6_create_nodes :
      List VerifiedConcept → List k.Properties → Step env (List CreatedNode)
  pass6_create_nodes [] properties = pure []
  pass6_create_nodes (concept ∷ verified) properties =
      create_for concept.action concept.name properties (pass6_create_nodes verified)

  -- `if … .is_ok() { context.add_…(…) }`
  abbrev pub track_if : Bool → (AgentContext → AgentContext) → Step env (Unit {0})
  track_if true f = change_context env f
  track_if false f = pure tt

  abbrev pub add_link : GeneralizationLink → AgentContext → AgentContext
  add_link link c = record c { domain_graph = add_generalization link c.domain_graph }

  -- The link of a concept's node to its target, tracked where it was created.
  unfoldable pub link_target : CreatedNode → String → String → Step env (Unit {0})
  unfolding add_generalization
  link_target source target_id target_name = do
    is_ok ← relate env source.element_id target_id "GENERALIZES_TO" none
    track_if is_ok (
        add_link (record {
          specific_id = source.element_id;
          specific_name = source.name;
          general_id = target_id;
          general_name = target_name;
          node_type = k.label;
        }))

  -- The link of one concept, by its action.
  abbrev pub link_concept : ConceptAction → String → List CreatedNode → Step env (Unit {0})
  link_concept (use_node _) name nodes = pure tt
  link_concept create_new_node name nodes = pure tt
  link_concept (generalize_node target_id target_name _) name nodes = do
    source ← lift (
        ok_or (find (has_created_name name) nodes)
          (fault (format ("Node not found: " ∷ name ∷ []))))
    link_target source target_id target_name

  unfoldable pub pass7_create_generalization_relationships :
      List VerifiedConcept → List CreatedNode → Step env (Unit {0})
  unfolding link_target
  pass7_create_generalization_relationships [] nodes = pure tt
  pass7_create_generalization_relationships (concept ∷ verified) nodes = do
    link_concept concept.action concept.name nodes
    pass7_create_generalization_relationships verified nodes

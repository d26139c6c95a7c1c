-- ===== src/Agent/Steps/Traits.antt =====
-- The generator of traits (domains/agent/steps/trait_generator.rs).
use atlas_of_us.Agent.Steps.Context.{add_trait, description_of}
use atlas_of_us.Text.{decimal}
use atlas_of_us.Agent.Prompts.Traits.{trait_concepts, trait_properties, verify_similar_trait}
use atlas_of_us.Floats.{ge_f64, lt_f64}
use atlas_of_us.Agent.Prompts.System.{trait_analyst}
use atlas_of_us.Agent.Steps.Generators.{track_nodes, progress}
use atlas_of_us.Agent.Registry.Defs.{created, reused, CreatedNode}
use atlas_of_us.Agent.Steps.Creation.{needs_node}
use atlas_of_us.Effects.Defs.{ok_or, lift, and_then, map_ok, Result, raise, pure, ◌>>=◌, ◌>>◌}
use atlas_of_us.Agent.Steps.Verification.{first_score, Matches, similar_named}
use atlas_of_us.Agent.Concepts.{
  ConceptAction, create_new_node, generalize_node, concept_create_new, use_node,
  concept_use_existing, VerifiedConcept,
}
use atlas_of_us.Agent.Steps.Replies.{parse_concept_list, not_null, text_or, text_at, parse_object}
use atlas_of_us.Agent.Generation.Models.{
  Abort, fault, similarity_check, trait_generator, AgentContext, Similar,
}
use atlas_of_us.Agent.Steps.Environment.{
  make_node, search_similar, ask_model, emit_event, run_batch, Step, get_context, StepEnvironment,
}
use atlas_of_us.Prelude.{
  String, Option, none, some, List, [], ◌∷◌, ◌==◌, if◌then◌else◌, length, find, filter,
}

pub record TraitProperties : Type 0 where
  pub name : String
  pub description : String
  pub measurement_criteria : String

module _ (env : StepEnvironment) where
  unfoldable pub pass1_trait_concepts : AgentContext → Step env (List String)
  pass1_trait_concepts context = do
    response ←
        ask_model env trait_analyst (trait_concepts context.domain_name (description_of context))
          16384 3
    lift (parse_concept_list env.json response)

  unfoldable pub pass2_similar_traits : List String → Step env (Matches env)
  pass2_similar_traits concepts =
      run_batch env
        (λ concept. do similar ← search_similar env concept "Trait" 3; pure (concept, similar))
        concepts

  -- The id of the similar node of that name, or of the first.
  abbrev pub named_or_first :
      String → Similar env.floats.F64 → List (Similar env.floats.F64) → String
  named_or_first name top similar_nodes = elim (find (similar_named env name) similar_nodes) [
    | none ↦ top.id
    | some n ↦ n.id
  ]

  abbrev pub reused_trait :
      String
      → Option String
      → Similar env.floats.F64
      → List (Similar env.floats.F64)
      → VerifiedConcept
  reused_trait concept none top similar_nodes = concept_use_existing concept top.id
  reused_trait concept (some name) top similar_nodes =
      concept_use_existing concept (named_or_first name top similar_nodes)

  -- Called with at least one similar node, the first given.
  unfoldable pub parse_trait_verification :
      String
      → String
      → Similar env.floats.F64
      → List (Similar env.floats.F64)
      → Result Abort VerifiedConcept
  unfolding parse_object text_at
  parse_trait_verification response concept top similar_nodes =
      and_then (parse_object env.json "No JSON object found" none response) λ parsed.
        map_ok
          (λ decision.
            if decision == "use_existing"
            then reused_trait concept
                (not_null env.json (text_at env.json parsed "existing_node_name")) top similar_nodes
            else concept_create_new concept)
          (ok_or (text_at env.json parsed "decision") (fault "Missing decision field"))

  unfoldable pub consult_trait :
      AgentContext
      → String
      → Similar env.floats.F64
      → List (Similar env.floats.F64)
      → Step env VerifiedConcept
  unfolding parse_trait_verification
  consult_trait context concept top similar_nodes = do
    response ←
        ask_model env trait_analyst
          (verify_similar_trait env.floats concept context.domain_name similar_nodes) 512 2
    lift (parse_trait_verification response concept top similar_nodes)

  unfoldable pub decide_trait :
      AgentContext → String → List (Similar env.floats.F64) → Step env VerifiedConcept
  unfolding consult_trait
  decide_trait context concept [] = pure (concept_create_new concept)
  decide_trait context concept (top ∷ rest) =
      if lt_f64 env.floats top.score (env.floats.hundredths 65)
      then pure (concept_create_new concept)
      else if ge_f64 env.floats top.score (env.floats.hundredths 85)
      then pure (concept_use_existing concept top.id)
      else consult_trait context concept top (top ∷ rest)

  unfoldable pub pass3_verify_traits : AgentContext → Matches env → Step env (List VerifiedConcept)
  unfolding decide_trait
  pass3_verify_traits context [] = pure []
  pass3_verify_traits context ((concept, similar_nodes) ∷ matches) = do
    emit_event env (
        similarity_check trait_generator concept (length similar_nodes) (first_score similar_nodes))
    decision ← decide_trait context concept similar_nodes
    verified ← pass3_verify_traits context matches
    pure (decision ∷ verified)

  unfoldable pub parse_trait_properties : String → String → Result Abort TraitProperties
  unfolding parse_object text_at
  parse_trait_properties response concept_name =
      map_ok
        (λ (parsed : env.json.Value). record {
          name = text_or env.json parsed "name" concept_name;
          description = text_or env.json parsed "description" "";
          measurement_criteria = text_or env.json parsed "measurement_criteria" "";
        })
        (parse_object env.json "No JSON object found" none response)

  unfoldable pub generate_trait : VerifiedConcept → Step env TraitProperties
  unfolding parse_trait_properties
  generate_trait concept = do
    response ← ask_model env trait_analyst (trait_properties concept.name) 1024 3
    lift (parse_trait_properties response concept.name)

  abbrev pub generate_traits : List VerifiedConcept → Step env (List TraitProperties)
  generate_traits [] = pure []
  generate_traits (c ∷ cs) = run_batch env generate_trait (c ∷ cs)

  unfoldable pub pass4_trait_properties : List VerifiedConcept → Step env (List TraitProperties)
  unfolding generate_trait
  pass4_trait_properties verified = generate_traits (filter needs_node verified)

  abbrev pub create_next_trait :
      List TraitProperties
      → (List TraitProperties → Step env (List CreatedNode))
      → Step env (List CreatedNode)
  create_next_trait [] rest = raise (fault "Missing properties")
  create_next_trait (props ∷ properties) rest = do
    result ← make_node env "Trait" (
        ("name", env.json.text props.name)
        ∷ ("description", env.json.text props.description)
        ∷ ("measurement_criteria", env.json.text props.measurement_criteria)
        ∷ [])
    nodes ← rest properties
    pure (created props.name result.element_id "Trait" ∷ nodes)

  -- The node of one concept, by its action; a concept to be generalized is passed over.
  abbrev pub create_trait_for :
      ConceptAction
      → String
      → List TraitProperties
      → (List TraitProperties → Step env (List CreatedNode))
      → Step env (List CreatedNode)
  create_trait_for (use_node element_id) name properties rest = do
    nodes ← rest properties
    pure (reused name element_id "Trait" ∷ nodes)
  create_trait_for create_new_node name properties rest = create_next_trait properties rest
  create_trait_for (generalize_node _ _ _) name properties rest = rest properties

  unfoldable pub pass5_create_traits :
      List VerifiedConcept → List TraitProperties → Step env (List CreatedNode)
  pass5_create_traits [] properties = pure []
  pass5_create_traits (concept ∷ verified) properties =
      create_trait_for concept.action concept.name properties (pass5_create_traits verified)

  unfoldable pub execute_trait : Step env (Unit {0})
  execute_trait = do
    progress env trait_generator ("Identifying relevant traits..." ∷ [])
    context ← get_context env
    concepts ← pass1_trait_concepts context
    progress env trait_generator ("Found " ∷ decimal (length concepts) ∷ " trait concepts" ∷ [])
    matches ← pass2_similar_traits concepts
    verified ← pass3_verify_traits context matches
    properties ← pass4_trait_properties verified
    nodes ← pass5_create_traits verified properties
    track_nodes env trait_generator "Trait" add_trait nodes

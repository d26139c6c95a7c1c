-- ===== src/Samples/StepTests.antt =====
-- The theorems on the steps of a generation at a concrete environment: a JSON value is a text, each
-- field of an object holds its own key, the model answers "{}", and every node is "n1".
use atlas_of_us.Text.{is_whitespace}
use atlas_of_us.Agent.Generation.Statistics.{IsCounted}
use atlas_of_us.Agent.Registry.Defs.{created}
use atlas_of_us.Agent.Steps.Keeping.Whole.{generation_lem, step_of-Within}
use atlas_of_us.Text.{chars}
use atlas_of_us.Agent.Steps.Kinds.{knowledge_kind}
use atlas_of_us.Agent.Generation.Orchestrator.{generate_domain}
use atlas_of_us.Agent.Steps.Dispatch.{generation, step_of}
use atlas_of_us.Samples.Scores.{scores}
use atlas_of_us.Effects.Defs.{err, ◌>>=◌, pure, lift, ok}
use atlas_of_us.Agent.Steps.Levels.{create_level_relationships, parse_i64}
use atlas_of_us.Agent.Steps.Tracking.{
  with_requirements, create_level_relationships-Tracks, level_request,
}
use atlas_of_us.Agent.Steps.Answers.{Tracks, AllAnswered}
use atlas_of_us.Agent.Steps.Assignment.{LevelAssignment}
use atlas_of_us.Agent.Steps.Linked.{pass7-IsNamed, IsNamed}
use atlas_of_us.Agent.Steps.Alignment.{pass6_create_nodes-pass5, Creation}
use atlas_of_us.Agent.Steps.Creation.{
  pass6_create_nodes, pass5_generate_properties, pass7_create_generalization_relationships,
}
use atlas_of_us.Agent.Steps.Kinds.{KnowledgeProperties}
use atlas_of_us.Agent.Concepts.{
  concept_create_new, concept_generalize, concept_use_existing, VerifiedConcept,
}
use atlas_of_us.Agent.Generation.Protocol.{marks, Course}
use atlas_of_us.Agent.Steps.Within.{Within}
use atlas_of_us.Agent.Steps.Environment.{
  ask_model, change_context, collect, run_each, serve, relate, run_batch, Json, State,
  StepEnvironment,
}
use atlas_of_us.Graph.Models.{pos}
use atlas_of_us.Agent.Generation.Models.{
  fault, DomainGenerationResult, new_context, knowledge_generator,
}
use atlas_of_us.Prelude.{
  String, ◌≡◌, refl, true, false, none, some, List, [], ◌∷◌, find, filter, here,
}

abbrev text_json : Json
text_json = record {
  Value = String;
  from_str = λ s. ok s;
  texts_from_str = λ s. ok ("Openings" ∷ []);
  get = λ v key. some key;
  as_str = λ v. some v;
  as_array = λ v. some [];
  as_i64 = λ v. none;
  text = λ s. s;
  int = λ z. "0";
}

abbrev chess_steps : StepEnvironment
chess_steps = record {
  floats = scores;
  json = text_json;
  World = Unit;
  generate = λ system prompt config w. (ok "{}", w);
  find_similar_nodes = λ request w. (ok [], w);
  create_node = λ request check w. (ok (record { element_id = "n1"; name = "n"; labels = [] }), w);
  create_relationship = λ request w. (
    ok (record {
      element_id = "r1";
      relationship_type = request.relationship_type;
      source_id = request.source_id;
      target_id = request.target_id;
    }),
    w,
  );
  is_queue_configured = λ w. false;
  queue_image_generation = λ job w. (ok tt, w);
  seconds = λ w. 0;
  elapsed_ms = λ w. 12;
  to_lowercase = λ s. s;
  is_alphanumeric = λ c. true;
  debug_text = λ s. s;
}

abbrev chess_state : State chess_steps
chess_state = record { context = new_context "Chess" none; events = []; world = tt }

step_of-Within_example :
    Within knowledge_generator chess_state (step_of chess_steps knowledge_generator chess_state).1
step_of-Within_example = step_of-Within chess_steps knowledge_generator chess_state

abbrev chess_world : (generation chess_steps).World
unfolding generation
chess_world = tt

-- The same with answers that every parser reads, so that the generation succeeds.
abbrev fluent_steps : StepEnvironment
fluent_steps = record chess_steps { generate = λ system prompt config w. (ok "[{}]", w) }

abbrev fluent_world : (generation fluent_steps).World
unfolding generation
fluent_world = tt

generation_lem_example :
    Course
      (generate_domain (generation fluent_steps) "Chess" none fluent_world).0
      (marks (generate_domain (generation fluent_steps) "Chess" none fluent_world).1)
    × ((r : DomainGenerationResult)
        → (generate_domain (generation fluent_steps) "Chess" none fluent_world).0 ≡ ok r
        → IsCounted (generation fluent_steps) r)
generation_lem_example = generation_lem fluent_steps "Chess" none fluent_world

abbrev openings : VerifiedConcept
openings = concept_create_new "Openings"

abbrev tactics : VerifiedConcept
tactics = concept_use_existing "Tactics" "k2"

abbrev openings_properties : KnowledgeProperties
openings_properties = record {
  name = "name";
  description = "description";
  how_to_learn = "how_to_learn";
  remember_level = "remember_level";
  understand_level = "understand_level";
  apply_level = "apply_level";
  analyze_level = "analyze_level";
  evaluate_level = "evaluate_level";
  create_level = "create_level";
}

abbrev chess_made : List (knowledge_kind chess_steps).Properties
unfolding knowledge_kind
chess_made = openings_properties ∷ []

chess_properties :
    (pass5_generate_properties chess_steps
      (knowledge_kind chess_steps)
      (new_context "Chess" none)
      (tactics ∷ openings ∷ [])
      chess_state).0
    ≡ ok chess_made
unfolding is_whitespace pass5_generate_properties knowledge_kind filter run_batch run_each collect
    ask_model lift pure ◌>>=◌
chess_properties = refl

pass6_create_nodes-pass5_example :
    Creation chess_steps
      (knowledge_kind chess_steps)
      (tactics ∷ openings ∷ [])
      chess_made
      chess_state
      (pass6_create_nodes chess_steps
        (knowledge_kind chess_steps)
        (tactics ∷ openings ∷ [])
        chess_made
        chess_state).0
      (pass6_create_nodes chess_steps
        (knowledge_kind chess_steps)
        (tactics ∷ openings ∷ [])
        chess_made
        chess_state).1
pass6_create_nodes-pass5_example =
    pass6_create_nodes-pass5 chess_steps (knowledge_kind chess_steps) (new_context "Chess" none)
      (tactics ∷ openings ∷ []) chess_made chess_state chess_state chess_properties

abbrev general : VerifiedConcept
general = concept_generalize "Chess Openings" "k9" "Openings" false

chess_linked :
    (pass7_create_generalization_relationships chess_steps
      (knowledge_kind chess_steps)
      (general ∷ [])
      (created "Chess Openings" "n1" "Knowledge" ∷ [])
      chess_state).0
    ≡ ok tt
unfolding pass7_create_generalization_relationships knowledge_kind find relate serve change_context
    lift pure ◌>>=◌
chess_linked = refl

pass7-IsNamed_example :
    IsNamed chess_steps
      (knowledge_kind chess_steps)
      (created "Chess Openings" "n1" "Knowledge" ∷ [])
      general
pass7-IsNamed_example =
    pass7-IsNamed chess_steps (knowledge_kind chess_steps) (general ∷ [])
      (created "Chess Openings" "n1" "Knowledge" ∷ []) chess_state chess_linked general "Openings"
      here refl

-- Where the properties name the node otherwise, the pass fails.
chess_renamed :
    (pass7_create_generalization_relationships chess_steps
      (knowledge_kind chess_steps)
      (general ∷ [])
      (created "Openings in Chess" "n1" "Knowledge" ∷ [])
      chess_state).0
    ≡ err (fault "Node not found: Chess Openings")
unfolding pass7_create_generalization_relationships knowledge_kind find relate serve change_context
    lift pure ◌>>=◌
chess_renamed = refl

abbrev chess_assignments : List LevelAssignment
chess_assignments =
    record {
      level_id = "l1";
      component_id = "n1";
      component_name = "Openings";
      component_type = "Knowledge";
      proficiency = some "Remember";
    }
    ∷ record {
      level_id = "l2";
      component_id = "n2";
      component_name = "Patience";
      component_type = "Trait";
      proficiency = some "40";
    }
    ∷ []

create_level_relationships-Tracks_example :
    Tracks with_requirements chess_steps
      (AllAnswered chess_steps (level_request chess_steps) chess_assignments)
      (create_level_relationships chess_steps chess_assignments)
      chess_state
create_level_relationships-Tracks_example =
    create_level_relationships-Tracks chess_steps chess_assignments chess_state

forty : parse_i64 (chars "40") ≡ some (pos 40)
unfolding parse_i64
forty = refl

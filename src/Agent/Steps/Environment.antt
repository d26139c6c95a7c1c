-- ===== src/Agent/Steps/Environment.antt =====
-- What the steps of a generation work with: the traits and services that they call, the context
-- that they write, and the events that they send (domains/agent/steps/mod.rs,
-- domains/agent/llm/provider.rs).
use Prim.Native.Char.{Char}
use atlas_of_us.Graph.Models.{ServiceError, show_service_error, ℤ, pos}
use atlas_of_us.Graph.Requests.{
  FindSimilarNodesRequest, CreateRelationshipResult, CreateRelationshipRequest, CreateNodeRequest,
  CreateNodeResult,
}
use atlas_of_us.Agent.Generation.Models.{panicked, fault, Abort, AgentContext, Similar, SseEvent}
use atlas_of_us.Floats.{Floats}
use atlas_of_us.Effects.Defs.{map_err, lift, ◌>>=◌, map_ok, err, pure, Exec, Result, ok}
use atlas_of_us.Text.{format}
use atlas_of_us.Prelude.{ℕ, String, Bool, true, false, Option, none, some, List, [], ◌∷◌, ◌++◌}

pub data LlmError : Type 0 where
  connection_failed request_failed parse_error : String → LlmError
  timeout rate_limited : LlmError
  not_configured : String → LlmError

-- `{:?}`, as it is derived, over that of texts.
unfoldable pub debug_llm_error : (String → String) → LlmError → String
debug_llm_error debug (connection_failed msg) = format ("ConnectionFailed(" ∷ debug msg ∷ ")" ∷ [])
debug_llm_error debug (request_failed msg) = format ("RequestFailed(" ∷ debug msg ∷ ")" ∷ [])
debug_llm_error debug (parse_error msg) = format ("ParseError(" ∷ debug msg ∷ ")" ∷ [])
debug_llm_error debug timeout = "Timeout"
debug_llm_error debug rate_limited = "RateLimited"
debug_llm_error debug (not_configured msg) = format ("NotConfigured(" ∷ debug msg ∷ ")" ∷ [])

-- The temperature in tenths; the steps set no stop sequences.
pub record GenerationConfig : Type 0 where
  pub max_tokens : Option ℕ
  pub temperature : Option ℕ
  pub stop_sequences : Option (List String)

-- serde_json: `from_str` to a value and to a list of texts, `get`, `as_str`, `as_array`, `as_i64`,
-- and `json!` of a text and of a number.
pub record Json : Type 1 where
  pub Value : Type 0
  pub from_str : String → Result String Value
  pub texts_from_str : String → Result String (List String)
  pub get : Value → String → Option Value
  pub as_str : Value → Option String
  pub as_array : Value → Option (List Value)
  pub as_i64 : Value → Option ℤ
  pub text : String → Value
  pub int : ℤ → Value

pub record ImageGenJob : Type 0 where
  pub domain_name : String
  pub element_id : String
  pub prompt : String
  pub s3_key : String
  pub created_at : String

-- The services that the steps call, over a world that they change: LlmProvider, the search for
-- similar nodes, the services on nodes and relationships, the queue of images and the clock; and
-- `to_lowercase`, `char::is_alphanumeric` and `{:?}` of texts.
pub record StepEnvironment : Type 1 where
  pub floats : Floats
  pub json : Json
  pub World : Type 0
  pub generate : String → String → GenerationConfig → World → Result LlmError String × World
  pub find_similar_nodes :
      FindSimilarNodesRequest floats.F64 → World → Result String (List (Similar floats.F64)) × World
  pub create_node :
      CreateNodeRequest json.Value
      → Bool
      → World
      → Result (ServiceError floats.F64) CreateNodeResult × World
  pub create_relationship :
      CreateRelationshipRequest json.Value
      → World
      → Result (ServiceError floats.F64) CreateRelationshipResult × World
  pub is_queue_configured : World → Bool
  pub queue_image_generation : ImageGenJob → World → Result String (Unit {0}) × World
  pub seconds : World → ℕ
  pub elapsed_ms : World → ℕ
  pub to_lowercase : String → String
  pub is_alphanumeric : Char → Bool
  pub debug_text : String → String

-- The context that a step borrows, the events sent so far, and the world.
pub record StepState (F W : Type 0) : Type 0 where
  pub context : AgentContext
  pub events : List (SseEvent F)
  pub world : W

module _ (env : StepEnvironment) where
  abbrev pub State : Type 0
  State = StepState env.floats.F64 env.World

  abbrev pub Step : Type 0 → Type 0
  Step A = Exec State Abort A

  -- `emit_event`: a failure to send is only logged.
  unfoldable pub emit_event : SseEvent env.floats.F64 → Step (Unit {0})
  emit_event event s = (ok tt, record s { events = s.events ++ event ∷ [] })

  unfoldable pub change_context : (AgentContext → AgentContext) → Step (Unit {0})
  change_context f s = (ok tt, record s { context = f s.context })

  unfoldable pub get_context : Step AgentContext
  get_context s = (ok s.context, s)

  unfoldable pub ask_world : {A : Type 0} → (env.World → A) → Step A
  ask_world f s = (ok (f s.world), s)

  -- A call of a service; its error is a value.
  unfoldable pub serve : {E A : Type 0} → (env.World → Result E A × env.World) → Step (Result E A)
  serve f s = let (r, w) = f s.world in (ok r, record s { world = w })

  -- `service(…).await.map_err(…)?`
  unfoldable pub serve_or :
      {E A : Type 0} → (E → String) → (env.World → Result E A × env.World) → Step A
  unfolding serve
  serve_or show f = do r ← serve f; lift (map_err (λ e. fault (show e)) r)

  -- One request to the language model.
  unfoldable pub ask_model : String → String → ℕ → ℕ → Step String
  unfolding serve_or
  ask_model system prompt max_tokens tenths =
      serve_or (λ e. format ("LLM error: " ∷ debug_llm_error env.debug_text e ∷ []))
        (env.generate system prompt (record {
          max_tokens = some max_tokens;
          temperature = some tenths;
          stop_sequences = none;
        }))

  -- The nodes of a label that are similar to a text.
  unfoldable pub search_similar : String → String → ℕ → Step (List (Similar env.floats.F64))
  unfolding serve_or
  search_similar concept label limit =
      serve_or (λ e. format ("Similarity search failed: " ∷ e ∷ []))
        (env.find_similar_nodes (record {
          node_id = none;
          embedding = none;
          text = some concept;
          label = some label;
          limit = some (pos limit);
        }))

  -- `services::create_node(graph, request, false)` with its error as a text.
  unfoldable pub make_node : String → List (String × env.json.Value) → Step CreateNodeResult
  unfolding serve_or
  make_node label properties =
      serve_or (show_service_error env.floats)
        (env.create_node (record { labels = label ∷ []; properties = properties }) false)

  -- `services::create_relationship(…).await.is_ok()`
  unfoldable pub relate :
      String → String → String → Option (List (String × env.json.Value)) → Step Bool
  unfolding serve
  relate source_id target_id relationship_type properties = do
    r ← serve (
        env.create_relationship (record {
          source_id = source_id;
          target_id = target_id;
          relationship_type = relationship_type;
          properties = properties;
        }))
    pure (elim r [ ok _ ↦ true | err _ ↦ false ])

  -- One future after the other, as `buffer_unordered(BATCH_SIZE)` runs them; an error does not stop
  -- those after it, and a panic does.
  unfoldable pub settle : {A : Type 0} → Step A → Step (Result String A)
  settle m s =
      let (r, s') = m s in
      elim r [
        | ok a ↦ (ok (ok a), s')
        | err f ↦ elim f [ fault e ↦ (ok (err e), s') | panicked ↦ (err panicked, s') ]
      ]

  unfoldable pub run_each : {X A : Type 0} → (X → Step A) → List X → Step (List (Result String A))
  unfolding settle
  run_each f [] = pure []
  run_each f (x ∷ xs) = do r ← settle (f x); rs ← run_each f xs; pure (r ∷ rs)

-- `collect::<Result<Vec<_>, _>>()`
unfoldable pub collect : {A : Type 0} → List (Result String A) → Result Abort (List A)
collect [] = ok []
collect (err e ∷ rs) = err (fault e)
collect (ok a ∷ rs) = map_ok (λ xs. a ∷ xs) (collect rs)

module _ (env : StepEnvironment) where
  unfoldable pub run_batch : {X A : Type 0} → (X → Step env A) → List X → Step env (List A)
  unfolding run_each
  run_batch f xs = do rs ← run_each env f xs; lift (collect rs)

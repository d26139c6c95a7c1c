-- ===== src/Worker/Handler.antt =====
-- The Lambda's entry point: handler.rs of the worker.
use atlas_of_us.Prelude.{String, Option, none, some, List, [], ◌∷◌, if◌then◌else◌}
use atlas_of_us.Text.{format}
use atlas_of_us.Effects.Defs.{Result, ok, err, Eff, pure, raise, call, ◌>>◌, with_err}
use atlas_of_us.Worker.Job.{
  NodeType, NodeGenerationJob, NodeGenerationResult, knowledge, skill, trait, milestone,
}
use atlas_of_us.Worker.Services.{Services, Float, Call}
use atlas_of_us.Worker.Clients.{LlmService, new_llm}
use atlas_of_us.Worker.Errors.{
  ProcessingError, configuration, show_processing_error, is_retryable_error,
}
use atlas_of_us.Worker.Processors.Knowledge
use atlas_of_us.Worker.Processors.Skill
use atlas_of_us.Worker.Processors.Trait
use atlas_of_us.Worker.Processors.Milestone

-- config.rs
pub record Config : Type 0 where
  pub neo4j_uri : String
  pub neo4j_user : String
  pub neo4j_password : String
  pub embedding_endpoint : String
  pub llm_endpoint : Option String
  pub anthropic_api_key : Option String
  pub queue_url : String

module _ (env : Services) where
  abbrev pub process_as :
      LlmService
      → NodeGenerationJob
      → NodeType
      → Eff (Call (Float env)) ProcessingError NodeGenerationResult
  process_as llm job knowledge = Knowledge.process env llm job
  process_as llm job skill = Skill.process env llm job
  process_as llm job trait = Trait.process env llm job
  process_as llm job milestone = Milestone.process env llm job

  unfoldable pub process_job :
      Option LlmService
      → NodeGenerationJob
      → Eff (Call (Float env)) ProcessingError NodeGenerationResult
  process_job none job =
      raise (configuration "LLM service not configured (missing ANTHROPIC_API_KEY)")
  process_job (some llm) job = process_as llm job job.node_type

  -- What the loop does with the outcome of a job: go on, or fail so that the queue retries.
  abbrev pub after_job :
      Result ProcessingError NodeGenerationResult
      → Eff (Call (Float env)) String (Unit {0})
      → Eff (Call (Float env)) String (Unit {0})
  after_job (ok _) rest = rest
  after_job (err e) rest =
      if is_retryable_error e
      then raise (format ("Retryable error: " ∷ show_processing_error e ∷ []))
      else rest

  -- One message, by what its body decodes to, and the messages after it.
  abbrev pub run_decoded :
      Option LlmService
      → Result String NodeGenerationJob
      → Eff (Call (Float env)) String (Unit {0})
      → Eff (Call (Float env)) String (Unit {0})
  run_decoded llm (err e) rest h = rest h
  run_decoded llm (ok job) rest h = let (r, h') = process_job llm job h in after_job r rest h'

  -- The loop over the records of a batch. A record without a body and a body that is no job are
  -- skipped.
  unfoldable pub process_records :
      Option LlmService → List (Option String) → Eff (Call (Float env)) String (Unit {0})
  process_records llm [] = pure tt
  process_records llm (none ∷ records) = process_records llm records
  process_records llm (some body ∷ records) =
      run_decoded llm (env.decode_job body) (process_records llm records)

  unfoldable pub create_graph_connection : Config → Eff (Call (Float env)) String (Unit {0})
  create_graph_connection config =
      with_err (λ e. format ("Failed to connect to Neo4j: " ∷ e ∷ []))
        (call (Call.connect config.neo4j_uri config.neo4j_user config.neo4j_password)
          (λ h. env.connect h config.neo4j_uri config.neo4j_user config.neo4j_password))

  abbrev pub llm_of : Option String → Option LlmService
  llm_of none = none
  llm_of (some key) = some (new_llm key)

  unfoldable pub handle_sqs_event :
      Config → List (Option String) → Eff (Call (Float env)) String (Unit {0})
  unfolding create_graph_connection
  handle_sqs_event config [] = pure tt
  handle_sqs_event config records = do
    create_graph_connection config
    process_records (llm_of config.anthropic_api_key) records

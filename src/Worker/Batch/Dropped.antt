-- ===== src/Worker/Batch/Dropped.antt =====
-- The messages that a batch passes over without an error of their own.
use atlas_of_us.Text.{format}
use atlas_of_us.Prelude.{String, ◌≡◌, refl, Option, none, some, List, [], ◌∷◌, ◌++◌}
use atlas_of_us.Effects.Defs.{
  map_err, call, continue, with_err, ◌>>=◌, Result, ok, err, pure, raise,
}
use atlas_of_us.Worker.Job.{NodeGenerationJob}
use atlas_of_us.Worker.Services.{Services, Float, Call}
use atlas_of_us.Worker.Clients.{LlmService}
use atlas_of_us.Worker.Errors.{is_retryable_error}
use atlas_of_us.Worker.Handler.{
  llm_of, create_graph_connection, Config, handle_sqs_event, process_job, process_records,
  run_decoded,
}

-- A message that is no job: it has no body, or one that does not decode.
abbrev pub IsMalformed : Services → Option String → Type 0
IsMalformed env none = Unit
IsMalformed env (some body) = (e : String) × (env.decode_job body ≡ err e)

abbrev pub AllMalformed : Services → List (Option String) → Type 0
AllMalformed env [] = Unit
AllMalformed env (m ∷ ms) = IsMalformed env m × AllMalformed env ms

-- Messages that are no jobs are acknowledged: put before any others, they change neither the
-- outcome of the batch nor the calls that it makes.
pub process_records-malformed :
    (env : Services) (llm : Option LlmService) (bad records : List (Option String))
    → AllMalformed env bad
    → process_records env llm (bad ++ records) ≡ process_records env llm records
unfolding process_records
process_records-malformed env llm [] records m = refl
process_records-malformed env llm (none ∷ bad) records (_, m) =
    process_records-malformed env llm bad records m
process_records-malformed env llm (some body ∷ bad) records ((e, q), m) =
    rw q (process_records-malformed env llm bad records m)

module _ (env : Services) where
  without_llm :
      (r : Result String NodeGenerationJob)
      (rest : List (Call (Float env)) → Result String (Unit {0}) × List (Call (Float env)))
      → run_decoded env none r rest ≡ rest
  unfolding process_job raise is_retryable_error
  without_llm (ok job) rest = refl
  without_llm (err e) rest = refl

-- Each job ends in a configuration error, which is not retryable.
process_records-no_llm :
    (env : Services) (records : List (Option String)) (h : List (Call (Float env)))
    → process_records env none records h ≡ (ok tt, h)
unfolding process_records pure
process_records-no_llm env [] h = refl
process_records-no_llm env (none ∷ records) h = process_records-no_llm env records h
process_records-no_llm env (some body ∷ records) h =
    rw (without_llm env (env.decode_job body) (process_records env none records))
      (process_records-no_llm env records h)

after_connection :
    (env : Services) (key : Option String) (records : List (Option String))
    (r : Result String (Unit {0})) (h : List (Call (Float env)))
    → key ≡ none
    → continue r (λ _. process_records env (llm_of env key) records) h ≡ (r, h)
after_connection env none records (ok _) h q = process_records-no_llm env records h
after_connection env none records (err e) h q = refl
after_connection env (some key) records r h q = cc

-- Without an API key for the language model, the only call for a batch that is not empty is the
-- connection to the database, and the batch succeeds or fails with it alone, whatever its messages
-- are: no job is done, and none is returned to the queue for an error of its own.
pub handle_sqs_event-no_llm :
    (env : Services) (config : Config) (first : Option String) (records : List (Option String))
    (h : List (Call (Float env)))
    → config.anthropic_api_key ≡ none
    → handle_sqs_event env config (first ∷ records) h ≡ (
      map_err
          (λ e. format ("Failed to connect to Neo4j: " ∷ e ∷ []))
          (env.connect h config.neo4j_uri config.neo4j_user config.neo4j_password),
      Call.connect config.neo4j_uri config.neo4j_user config.neo4j_password ∷ h,
    )
unfolding handle_sqs_event create_graph_connection with_err call ◌>>=◌
handle_sqs_event-no_llm env config first records h q =
    after_connection env config.anthropic_api_key (first ∷ records) _ _ q

-- ===== src/Samples/WorkerTests.antt =====
-- The worker's theorems at concrete inputs.
use atlas_of_us.Worker.Decisions.Consultation.{decide_concept_action-calls}
use atlas_of_us.Worker.Batch.Runs.{process_records_iff, Runs}
use atlas_of_us.Worker.Services.{Call}
use atlas_of_us.Worker.Batch.Dropped.{process_records-malformed, handle_sqs_event-no_llm}
use atlas_of_us.Worker.Decisions.Levels.{determine_level_bounds}
use atlas_of_us.Worker.Trace.Creation.{process_job-creations}
use atlas_of_us.Floats.{lt_f64, ge_f64}
use atlas_of_us.Worker.Decisions.Targets.{decide_concept_action-IsGrounded, IsGrounded}
use atlas_of_us.Worker.Trace.Linking.{process_job-IsFinished, IsFinished}
use atlas_of_us.Worker.Job.{level_relationship, DomainLevelInfo, is_level}
use atlas_of_us.Worker.Trace.Counts.{creations}
use atlas_of_us.Prelude.{
  ℕ, ◌+◌, ◌≤◌, min, max, ◌≡◌, refl, ◌↔◌, ◌||◌, Option, none, some, [], ◌∷◌, if◌then◌else◌, length,
  find,
}
use atlas_of_us.Effects.Defs.{ok, unwrap_or, ◌>>=◌}
use atlas_of_us.Worker.Clients.{generate, generate_embedding, execute, run}
use atlas_of_us.Worker.Similarity.{find_similar_by_text, execute_similarity_query}
use atlas_of_us.Worker.Decision.{
  create_new, use_existing, verify_with_llm, determine_level, decide_concept_action, standard,
}
use atlas_of_us.Worker.Processors.Common.{
  ask_properties, assign_level, created_node_of, create_level_requirement,
}
use atlas_of_us.Worker.Processors.Knowledge
use atlas_of_us.Worker.Handler.{Config, handle_sqs_event, process_records, process_job}
use atlas_of_us.Samples.Outside.{levels, similar, outside, job, llm, result}

job_succeeds : (process_job outside (some llm) job []).0 ≡ ok result
unfolding process_job Knowledge.process find_similar_by_text execute_similarity_query
    generate_embedding execute run decide_concept_action standard ask_properties generate
    assign_level created_node_of create_level_requirement determine_level find ◌>>=◌
job_succeeds = refl

process_job-creations_example : creations (process_job outside (some llm) job []).1 ≡ 1
process_job-creations_example = process_job-creations outside (some llm) job [] result job_succeeds

third_level : DomainLevelInfo
third_level = record { level = 3; name = "Chess Competent"; element_id = "l3" }

third_found :
    find
      (is_level (determine_level job.suggested_level job.node_name job.domain_levels))
      job.domain_levels
    ≡ some third_level
unfolding find determine_level third_level
third_found = refl

process_job-IsFinished_example :
    IsFinished outside job
      (level_relationship job.node_type)
      third_level
      result
      (process_job outside (some llm) job []).1
process_job-IsFinished_example =
    process_job-IsFinished outside (some llm) job third_level [] result third_found job_succeeds

abbrev nine : Option ℕ
nine = some 9

determine_level_bounds_example :
    (1 ≤ determine_level nine "x" levels)
    × (determine_level nine "x" levels ≤ 5)
    × (determine_level nine "x" levels ≡ max 1 (min 5 (unwrap_or nine 3)))
determine_level_bounds_example = determine_level_bounds nine "x" levels

decides :
    (decide_concept_action outside llm "Openings"
      (similar ∷ [])
      (standard outside)
      "Chess"
      "Knowledge"
      []).0
    ≡ ok (use_existing "n7" "Chess Openings")
unfolding decide_concept_action standard verify_with_llm generate find ◌>>=◌
decides = refl

decide_concept_action-IsGrounded_example :
    IsGrounded (similar ∷ []) (use_existing "n7" "Chess Openings")
decide_concept_action-IsGrounded_example =
    decide_concept_action-IsGrounded outside llm "Openings" (similar ∷ []) (standard outside)
      "Chess" "Knowledge" [] (use_existing "n7" "Chess Openings") decides

decide_concept_action-calls_example :
    let high = ge_f64 outside.floats similar.score (standard outside).auto_reuse in
    let low = lt_f64 outside.floats similar.score (standard outside).auto_create in
    let run =
      decide_concept_action outside llm "Openings"
        (similar ∷ [])
        (standard outside)
        "Chess"
        "Knowledge"
        [] in
    (run.0 ≡ (
      if high
      then ok (use_existing similar.id similar.name)
      else if low
      then ok create_new
      else run.0))
    × (length run.1 ≡ 0 + (if high || low then 0 else 1))
decide_concept_action-calls_example =
    decide_concept_action-calls outside llm "Openings" similar [] (standard outside) "Chess"
      "Knowledge" []

process_records-malformed_example :
    process_records outside (some llm) (none ∷ some "{" ∷ some "job" ∷ [])
    ≡ process_records outside (some llm) (some "job" ∷ [])
process_records-malformed_example =
    process_records-malformed outside (some llm) (none ∷ some "{" ∷ []) (some "job" ∷ [])
      (tt, (("expected value", refl), tt))

abbrev keyless : Config
keyless = record {
  neo4j_uri = "bolt://db";
  neo4j_user = "neo4j";
  neo4j_password = "pw";
  embedding_endpoint = "http://embed";
  llm_endpoint = none;
  anthropic_api_key = none;
  queue_url = "q";
}

handle_sqs_event-no_llm_example :
    handle_sqs_event outside keyless (some "job" ∷ some "{" ∷ []) []
    ≡ (ok tt, Call.connect "bolt://db" "neo4j" "pw" ∷ [])
handle_sqs_event-no_llm_example =
    handle_sqs_event-no_llm outside keyless (some "job") (some "{" ∷ []) [] refl

process_records_iff_example :
    (process_records outside none (some "job" ∷ []) [] ≡ (ok tt, []))
    ↔ Runs outside none (some "job" ∷ []) [] (ok tt) []
process_records_iff_example = process_records_iff outside none (some "job" ∷ []) [] [] (ok tt)
